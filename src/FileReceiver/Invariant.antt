-- ===== src/FileReceiver/Invariant.antt =====
-- What holds of a client's table of incoming files between two frames.
use cipher_chat.Prelude.{
  ℕ, zero, suc, ◌+◌, ◌≤◌, ◌<◌, ◌≡◌, refl, ◌∙◌, true, List, [], ◌∷◌, arith, length, set,
  get_elem?-eq-get_or, length-set, replicate, length-replicate,
}
use cipher_chat.Prelude.Table.{bit, count, count-set, count-replicate}
use cipher_chat.Wire.{u64_mod}
use cipher_chat.FileCrypto.{file_crypto_overhead, file_plaintext_max_size, max_incoming_files}
use cipher_chat.FileReceiver.{
  IncomingFile, zero_file, Downloads, no_downloads, file_at, put, has_transfer,
  discard_incoming_file, staged,
}

-- A slot: no more than the declared size has been received, that is what the staging file holds, and
-- the declared size leaves room for the overhead and no more than the greatest file.
abbrev pub IsFile : IncomingFile → Type 0
IsFile f =
    f.active ≡ true
    → (f.received_size ≤ f.expected_size)
      × (length (staged f) ≡ f.received_size)
      × (file_crypto_overhead + length f.filename ≤ f.expected_size)
      × (f.expected_size ≤ file_crypto_overhead + length f.filename + file_plaintext_max_size)
      × (f.expected_size < u64_mod)

abbrev pub Files : List IncomingFile → Type 0
Files [] = Unit {0}
Files (f ∷ fs) = IsFile f × Files fs

-- The whole table: 16 slots, and no transfer id twice.
pub record IsValid (d : Downloads) : Type 0 where
  pub slots : length d.incoming_files ≡ max_incoming_files
  pub each : Files d.incoming_files
  pub ids : (k : ℕ) → count (has_transfer k) d.incoming_files ≤ 1

pub zero_file-IsFile : IsFile zero_file
zero_file-IsFile a = absurd (ground arith)

pub Files-at : (fs : List IncomingFile) (i : ℕ) → Files fs → IsFile (file_at fs i)
Files-at [] i v = zero_file-IsFile
Files-at (f ∷ fs) zero v = v.0
Files-at (f ∷ fs) (suc i) v = Files-at fs i v.1

pub Files-set :
    (fs : List IncomingFile) (i : ℕ) (f : IncomingFile) → IsFile f → Files fs → Files (set fs i f)
Files-set [] i new h v = tt
Files-set (f ∷ fs) zero new h v = (h, v.1)
Files-set (f ∷ fs) (suc i) new h v = (v.0, Files-set fs i new h v.1)

pub put-IsValid :
    {d : Downloads} (i : ℕ) (f : IncomingFile)
    → IsValid d
    → i < max_incoming_files
    → IsFile f
    → ((k : ℕ)
        → count (has_transfer k) d.incoming_files + bit (has_transfer k f)
          ≤ 1 + bit (has_transfer k (file_at d.incoming_files i)))
    → IsValid (put d i f)
put-IsValid {d} i f v inside h id_ok =
    let files = d.incoming_files in
    let at = get_elem?-eq-get_or files i zero_file (omega (arith, v.slots)) in
    record {
      slots = length-set files i f ∙ v.slots;
      each = Files-set files i f h v.each;
      ids = λ k. omega (arith, count-set (has_transfer k) files i f (file_at files i) at, id_ok k);
    }

pub discard_incoming_file-IsValid :
    {d : Downloads} (i : ℕ)
    → IsValid d
    → i < max_incoming_files
    → IsValid (discard_incoming_file d i)
unfolding has_transfer
discard_incoming_file-IsValid i v inside =
    put-IsValid i zero_file v inside zero_file-IsFile (λ k. omega (arith, v.ids k))

-- `saved` is no part of the invariant.
pub saved-IsValid :
    {d : Downloads} (saved : List (List ℕ × List ℕ))
    → IsValid d
    → IsValid (record d { saved = saved })
saved-IsValid saved v = record { slots = v.slots; each = v.each; ids = v.ids }

Files-replicate : (n : ℕ) → Files (replicate n zero_file)
Files-replicate zero = tt
Files-replicate (suc n) = (zero_file-IsFile, Files-replicate n)

pub no_downloads-IsValid : IsValid no_downloads
unfolding no_downloads has_transfer
no_downloads-IsValid = record {
  slots = length-replicate max_incoming_files zero_file;
  each = Files-replicate max_incoming_files;
  ids = λ k. omega (arith, count-replicate (has_transfer k) max_incoming_files zero_file refl);
}
