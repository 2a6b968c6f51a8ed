-- ===== src/FileProtocol/Names.antt =====
-- The names that frames carry.
use cipher_chat.Prelude.{
  ℕ, zero, suc, ◌-◌, ◌≤◌, ◌<◌, ◌≡◌, refl, Bool, true, false, some, List, [], ◌∷◌, arith, ◌==◌,
  length,
}
use cipher_chat.Wire.{username_size}
use cipher_chat.FileProtocol.{
  file_name_max_length, bounded_string_length, peer_byte, filename_byte, every, valid_peer_name,
  valid_filename,
}

-- A name without a zero byte that is no longer than the bound is measured whole.
bounded_string_length_lem :
    (p : ℕ → Bool) (m : ℕ) (cs : List ℕ)
    → ((c : ℕ) → p c ≡ true → (c == 0) ≡ false)
    → every p cs ≡ true
    → length cs ≤ m
    → bounded_string_length cs m ≡ some (length cs)
unfolding bounded_string_length every
bounded_string_length_lem p m [] h e le = refl
bounded_string_length_lem p zero (c ∷ cs) h e le = absurd (omega arith)
bounded_string_length_lem p (suc m) (c ∷ cs) h e le =
    ground (arith, h c, bounded_string_length_lem p m cs h)

peer_byte-ne-zero : (c : ℕ) → peer_byte c ≡ true → (c == 0) ≡ false
unfolding peer_byte
peer_byte-ne-zero c h = ground arith

filename_byte-ne-zero : (c : ℕ) → filename_byte c ≡ true → (c == 0) ≡ false
unfolding filename_byte
filename_byte-ne-zero c h = ground arith

pub valid_peer_name-length :
    (name : List ℕ)
    → valid_peer_name name ≡ true
    → (1 ≤ length name) × (length name < username_size)
unfolding valid_peer_name
valid_peer_name-length name h = ground arith

pub valid_filename-length :
    (name : List ℕ)
    → valid_filename name ≡ true
    → (1 ≤ length name) × (length name ≤ file_name_max_length)
unfolding valid_filename
valid_filename-length name h = ground arith

pub bounded-peer :
    (name : List ℕ)
    → valid_peer_name name ≡ true
    → bounded_string_length name (username_size - 1) ≡ some (length name)
unfolding valid_peer_name
bounded-peer name h =
    bounded_string_length_lem peer_byte 31 name peer_byte-ne-zero (ground arith) (ground arith)

pub bounded-filename :
    (name : List ℕ)
    → valid_filename name ≡ true
    → bounded_string_length name file_name_max_length ≡ some (length name)
unfolding valid_filename
bounded-filename name h =
    bounded_string_length_lem filename_byte 255 name filename_byte-ne-zero (ground arith)
      (ground arith)
