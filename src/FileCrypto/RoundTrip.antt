-- ===== src/FileCrypto/RoundTrip.antt =====
-- A file that is put into its encrypted form comes out again.
use cipher_chat.Prelude.{
  ℕ, ◌+◌, ◌-◌, ◌≤◌, ◌≡◌, sym, ap, ◌∙◌, true, false, some, List, ◌++◌, arith, ltb, ◌==◌, length,
  take, drop, take-append, drop-append, length-append, inl, inr, Option-cases, drop-drop,
  take_exact, drop_exact,
}
use cipher_chat.Status.{ok}
use cipher_chat.Text.{str_eq}
use cipher_chat.Wire.{chat_public_key_size, chat_nonce_size, read_u16}
use cipher_chat.Registry.Invariant.{str_eq_self}
use cipher_chat.FileCrypto.{
  Box, file_crypto_magic, file_crypto_overhead, plaintext_of, encrypt_file, open_plaintext,
  decrypt_file,
}

pub length-plaintext_of :
    (filename contents : List ℕ)
    → length (plaintext_of filename contents) ≡ 10 + (length filename + length contents)
unfolding plaintext_of
length-plaintext_of filename contents = omega (arith, length-append filename contents)

name_length :
    (filename contents : List ℕ)
    → length filename ≤ 255
    → read_u16 (drop 8 (plaintext_of filename contents)) ≡ length filename
unfolding read_u16 plaintext_of
name_length filename contents short = omega arith

open_plaintext-plaintext_of :
    (filename contents : List ℕ)
    → length filename ≤ 255
    → open_plaintext filename (plaintext_of filename contents) ≡ ok contents
unfolding open_plaintext plaintext_of
open_plaintext-plaintext_of filename contents short =
    let plain = plaintext_of filename contents in
    let n : read_u16 (drop 8 plain) ≡ length filename = name_length filename contents short in
    let long : ltb (length plain - 10) (length filename) ≡ false =
      ground (arith, length-plaintext_of filename contents) in
    let same : (length filename == length filename) ≡ true = ground arith in
    rw
      (
        n,
        same,
        long,
        take-append filename contents,
        str_eq_self filename,
        str_eq_self file_crypto_magic,
      )
      (ap ok (sym (drop-drop (length filename) 10 plain) ∙ drop-append filename contents))

module _ (box : Box) where
  parts :
      (filename contents nonce pk sk pk' : List ℕ) {encrypted : List ℕ}
      → encrypt_file box filename contents nonce pk' pk sk ≡ ok encrypted
      → (sealed : List ℕ) × (box.seal (plaintext_of filename contents) nonce pk' sk ≡ some sealed)
        × (encrypted ≡ file_crypto_magic ++ (pk ++ (nonce ++ sealed)))
  unfolding encrypt_file
  parts filename contents nonce pk sk pk' e =
      elim (Option-cases (box.seal (plaintext_of filename contents) nonce pk' sk)) [
        | inl fails ↦ absurd (ground arith)
        | inr (sealed, h) ↦ (sealed, h, ground arith)
      ]

  -- With a file name of at most 255 bytes, key pairs on both sides, and a nonce and a key of their sizes:
  -- what `send_file` encrypts has the size that the begin frame declares, and `decrypt_received_file`
  -- makes the same file of it, if crypto_box opens what it has sealed.
  pub decrypt-encrypt_file :
      (filename contents nonce pk sk pk' sk' : List ℕ) {encrypted : List ℕ}
      → length filename ≤ 255
      → length nonce ≡ chat_nonce_size
      → length pk ≡ chat_public_key_size
      → box.IsKeyPair pk sk
      → box.IsKeyPair pk' sk'
      → encrypt_file box filename contents nonce pk' pk sk ≡ ok encrypted
      → (length encrypted ≡ file_crypto_overhead + (length filename + length contents))
        × (decrypt_file box filename encrypted sk' ≡ ok contents)
  unfolding encrypt_file decrypt_file str_eq
  decrypt-encrypt_file filename contents nonce pk sk pk' sk' {encrypted} short ln lk pair pair' e =
      let (sealed, h, joined) = parts filename contents nonce pk sk pk' e in
      let tail = pk ++ (nonce ++ sealed) in
      let key : take 32 (drop 8 (file_crypto_magic ++ tail)) ≡ pk =
        take_exact 32 pk (nonce ++ sealed) lk in
      let behind_key : drop 32 tail ≡ nonce ++ sealed = drop_exact 32 pk (nonce ++ sealed) lk in
      let nonce_at : take 24 (drop 40 (file_crypto_magic ++ tail)) ≡ nonce =
        ap (take 24) behind_key ∙ take_exact 24 nonce sealed ln in
      let rest : drop 64 (file_crypto_magic ++ tail) ≡ sealed =
        sym (drop-drop 24 32 tail) ∙ (ap (drop 24) behind_key ∙ drop_exact 24 nonce sealed ln) in
      rw joined (
        omega (
          arith,
          length-append pk (nonce ++ sealed),
          length-append nonce sealed,
          length-plaintext_of filename contents,
          box.length_seal (plaintext_of filename contents) nonce pk' sk sealed h,
        ),
        rw
            (
              rest,
              nonce_at,
              key,
              box.unseal_seal (plaintext_of filename contents) nonce pk sk pk' sk' sealed pair pair'
                  h,
            )
            (open_plaintext-plaintext_of filename contents short),
      )
