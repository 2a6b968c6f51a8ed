-- ===== src/FileCrypto.antt =====
-- client_files.h, and the parts of client_file_sender.c and client_file_receiver.c that put a file into
-- its encrypted form and take it out again. libsodium is not part of the repository: `Box` is what the
-- code uses of it, and its laws are what the documentation of crypto_box promises.
pub mod RoundTrip
use cipher_chat.Prelude.{
  ℕ, ◌+◌, ◌-◌, ◌*◌, ◌/◌, ◌%◌, ◌≤◌, ◌≡◌, Bool, true, false, not, ◌||◌, Option, none, some, List, [],
  ◌∷◌, ◌++◌, ltb, ◌==◌, if◌then◌else◌, length, take, drop, get_or,
}
use cipher_chat.Status.{Errno, Result, ok, err, einval, eproto, ebadmsg}
use cipher_chat.Text.{codes, str_eq}
use cipher_chat.Wire.{u64_mod, chat_public_key_size, chat_nonce_size, chat_mac_size, byte, read_u16}

-- crypto_box_easy and crypto_box_open_easy: message, nonce, public key of the other side, own secret
-- key. `none` is the result -1.
pub record Box : Type 1 where
  pub IsKeyPair : List ℕ → List ℕ → Type 0
  pub seal : List ℕ → List ℕ → List ℕ → List ℕ → Option (List ℕ)
  pub unseal : List ℕ → List ℕ → List ℕ → List ℕ → Option (List ℕ)
  pub length_seal :
      (m n pk sk c : List ℕ) → seal m n pk sk ≡ some c → length c ≡ chat_mac_size + length m
  pub unseal_seal :
      (m n pk sk pk' sk' c : List ℕ)
      → IsKeyPair pk sk
      → IsKeyPair pk' sk'
      → seal m n pk' sk ≡ some c
      → unseal c n pk sk' ≡ some m

abbrev pub file_crypto_magic : List ℕ
file_crypto_magic = codes "CCFILE01"

abbrev pub file_crypto_magic_size : ℕ
file_crypto_magic_size = 8

abbrev pub file_plaintext_max_size : ℕ
file_plaintext_max_size = 16 * 1024 * 1024

abbrev pub file_crypto_header_size : ℕ
file_crypto_header_size = file_crypto_magic_size + chat_public_key_size + chat_nonce_size

abbrev pub file_crypto_metadata_size : ℕ
file_crypto_metadata_size = file_crypto_magic_size + 2

abbrev pub file_crypto_overhead : ℕ
file_crypto_overhead = file_crypto_header_size + chat_mac_size + file_crypto_metadata_size

abbrev pub max_incoming_files : ℕ
max_incoming_files = 16

abbrev pub download_path_limit : ℕ
download_path_limit = 4096

-- `plaintext` in `send_file`
unfoldable pub plaintext_of : List ℕ → List ℕ → List ℕ
plaintext_of filename contents =
    file_crypto_magic
    ++ ((length filename / 256 % 256) ∷ (length filename % 256) ∷ (filename ++ contents))

-- The tests of `decrypt_received_file` on the plaintext, and the bytes of the file. The lengths are
-- those of a file that `receive_file_begin` has let in, where no difference is negative.
unfoldable pub open_plaintext : List ℕ → List ℕ → Result (List ℕ)
unfolding read_u16
open_plaintext filename plaintext =
    let filename_length = read_u16 (drop file_crypto_magic_size plaintext) in
    if not (str_eq (take file_crypto_magic_size plaintext) file_crypto_magic)
      || not (filename_length == length filename)
      || ltb (length plaintext - file_crypto_metadata_size) filename_length
      || not (str_eq (take filename_length (drop file_crypto_metadata_size plaintext)) filename)
    then err ebadmsg
    else ok (drop (file_crypto_metadata_size + filename_length) plaintext)

module _ (box : Box) where
  -- `encrypted` in `send_file`
  unfoldable pub encrypt_file :
      List ℕ → List ℕ → List ℕ → List ℕ → List ℕ → List ℕ → Result (List ℕ)
  unfolding plaintext_of
  encrypt_file filename contents nonce recipient_public_key sender_public_key sender_private_key =
      elim (box.seal (plaintext_of filename contents) nonce recipient_public_key
        sender_private_key) [
          | none ↦ err einval
          | some sealed ↦ ok (file_crypto_magic ++ (sender_public_key ++ (nonce ++ sealed)))
        ]

  -- `decrypt_received_file`, from the bytes that have been staged to those of the file.
  unfoldable pub decrypt_file : List ℕ → List ℕ → List ℕ → Result (List ℕ)
  unfolding open_plaintext
  decrypt_file filename encrypted recipient_private_key =
      let sender_key = take chat_public_key_size (drop file_crypto_magic_size encrypted) in
      let nonce =
        take chat_nonce_size (drop (file_crypto_magic_size + chat_public_key_size) encrypted) in
      if not (str_eq (take file_crypto_magic_size encrypted) file_crypto_magic)
      then err eproto
      else elim (box.unseal (drop file_crypto_header_size encrypted) nonce sender_key
          recipient_private_key) [
            | none ↦ err ebadmsg
            | some plaintext ↦ open_plaintext filename plaintext
          ]
