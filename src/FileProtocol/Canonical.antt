-- ===== src/FileProtocol/Canonical.antt =====
-- A begin frame is determined by what it decodes to: there is one encoding of each.
use cipher_chat.Prelude.{
  ℕ, ◌+◌, ◌≡◌, ap, ◌∙◌, List, [], ◌∷◌, ◌++◌, arith, length, length-take, length-drop, take, drop,
  take-append-drop, take-length,
}
use cipher_chat.Status.{ok}
use cipher_chat.Wire.{frame_file_begin, read_u16, read_u64, write_u64}
use cipher_chat.Wire.RoundTrip.{AreBytes, write_u16-read_u16, write_u32-read_u32}
use cipher_chat.FileProtocol.Reencode.{read_u16-lt}
use cipher_chat.FileProtocol.{FileBeginFrame, begin_payload, decode_begin}

write_u64-read_u64 :
    (a b c d e f g h : ℕ) (rest : List ℕ)
    → AreBytes (a ∷ b ∷ c ∷ d ∷ e ∷ f ∷ g ∷ h ∷ rest)
    → write_u64 (read_u64 (a ∷ b ∷ c ∷ d ∷ e ∷ f ∷ g ∷ h ∷ rest))
      ≡ a ∷ b ∷ c ∷ d ∷ e ∷ f ∷ g ∷ h ∷ []
unfolding write_u64 read_u64
write_u64-read_u64 a b c d e f g h rest bytes = ground arith

split_names :
    (n m : ℕ) (rest : List ℕ)
    → n + m ≡ length rest
    → (take n rest ++ take m (drop n rest) ≡ rest)
      × (length (take n rest) ≡ n)
      × (length (take m (drop n rest)) ≡ m)
split_names n m rest e =
    let l = length-drop n rest in
    let whole : take m (drop n rest) ≡ drop n rest =
      ap (λ k. take k (drop n rest)) {x = m} {y = length (drop n rest)} (omega (arith, l))
      ∙ take-length (drop n rest) in
    (
      ap (λ ys. take n rest ++ ys) whole ∙ take-append-drop n rest,
      omega (arith, length-take n rest),
      omega (arith, length-take m (drop n rest), l),
    )

-- A frame of bytes that decodes is the begin frame of the fields that it decodes to, byte for byte.
pub decode_begin-canonical :
    (frame : List ℕ) (begin : FileBeginFrame)
    → AreBytes frame
    → decode_begin frame ≡ ok begin
    → frame
      ≡ frame_file_begin ∷ begin_payload begin.transfer_id begin.file_size begin.peer begin.filename
unfolding decode_begin begin_payload
decode_begin-canonical (t ∷ a ∷ b ∷ c ∷ d ∷ e ∷ f ∷ g ∷ h ∷ i ∷ j ∷ k ∷ l ∷ m ∷ n ∷ o ∷ p ∷ rest)
      begin bytes ok_begin =
    let pl = read_u16 (m ∷ n ∷ o ∷ p ∷ rest) in
    let fl = read_u16 (o ∷ p ∷ rest) in
    ground (
      arith,
      write_u32-read_u32 a b c d (e ∷ f ∷ g ∷ h ∷ i ∷ j ∷ k ∷ l ∷ m ∷ n ∷ o ∷ p ∷ rest),
      write_u64-read_u64 e f g h i j k l (m ∷ n ∷ o ∷ p ∷ rest),
      write_u16-read_u16 m n (o ∷ p ∷ rest),
      write_u16-read_u16 o p rest,
      split_names pl fl rest,
      read_u16-lt (m ∷ n ∷ o ∷ p ∷ rest),
      read_u16-lt (o ∷ p ∷ rest),
    )
decode_begin-canonical _ begin bytes ok_begin = ground arith
