-- ===== src/FileProtocol/Reencode.antt =====
-- Encoding what was decoded: the server decodes a frame and sends it on under another id, and for a
-- begin frame under another name. A frame that decodes is never refused by the encoder.
use cipher_chat.Prelude.{
  ℕ, zero, suc, ◌≤◌, ◌<◌, ◌≡◌, true, List, [], ◌∷◌, ◌++◌, arith, length, length-drop, drop,
}
use cipher_chat.Status.{ok}
use cipher_chat.Wire.{
  u16_mod, u32_mod, u64_mod, file_chunk_size, read_u16, read_u32, read_u64, write_u32,
}
use cipher_chat.Wire.RoundTrip.{AreBytes}
use cipher_chat.FileProtocol.{
  FileBeginFrame, FileChunkFrame, file_begin_payload_max_size, file_chunk_payload_max_size,
  chunk_header_length, valid_peer_name, valid_filename, begin_payload, encode_begin, decode_begin,
  encode_chunk, decode_chunk,
}
use cipher_chat.FileProtocol.Names.{valid_peer_name-length, valid_filename-length}
use cipher_chat.FileProtocol.RoundTrip.{encode_begin_lem}

-- What a begin frame that decodes carries.
pub record IsBegin (begin : FileBeginFrame) : Type 0 where
  pub peer_valid : valid_peer_name begin.peer ≡ true
  pub filename_valid : valid_filename begin.filename ≡ true

pub decode_begin-IsBegin :
    (frame : List ℕ) (begin : FileBeginFrame) → decode_begin frame ≡ ok begin → IsBegin begin
unfolding decode_begin
decode_begin-IsBegin frame begin h = ground arith

-- If a begin frame decodes, the payload that the server sends in its place, with any id and with
-- the valid name of its sender, is encoded: it fits in the buffer of the server.
pub encode_begin-decoded :
    (frame : List ℕ) (begin : FileBeginFrame) (id : ℕ) (sender : List ℕ)
    → decode_begin frame ≡ ok begin
    → valid_peer_name sender ≡ true
    → encode_begin file_begin_payload_max_size id begin.file_size sender begin.filename
      ≡ ok (begin_payload id begin.file_size sender begin.filename)
encode_begin-decoded frame begin id sender h vs =
    let b = decode_begin-IsBegin frame begin h in
    let sl = valid_peer_name-length sender vs in
    let fl = valid_filename-length begin.filename b.filename_valid in
    encode_begin_lem file_begin_payload_max_size id begin.file_size sender begin.filename vs
      b.filename_valid (omega (arith, sl, fl))

-- If a chunk frame decodes, it has 1 to 900 bytes, which are those behind its header, and the
-- payload that the server sends in its place, with any id, is encoded with the same bytes.
pub encode_chunk-decoded :
    (frame : List ℕ) (chunk : FileChunkFrame) (id : ℕ)
    → decode_chunk frame ≡ ok chunk
    → (1 ≤ length chunk.contents)
      × (length chunk.contents ≤ file_chunk_size)
      × (encode_chunk file_chunk_payload_max_size id chunk.contents
          ≡ ok (write_u32 id ++ chunk.contents))
      × (chunk.contents ≡ drop chunk_header_length frame)
unfolding decode_chunk encode_chunk
encode_chunk-decoded frame chunk id h = ground (arith, length-drop chunk_header_length frame)

pub read_u16-lt : (bs : List ℕ) → AreBytes bs → read_u16 bs < u16_mod
unfolding read_u16
read_u16-lt [] h = omega arith
read_u16-lt (a ∷ []) h = omega arith
read_u16-lt (a ∷ b ∷ bs) h = omega arith

pub read_u32-lt : (bs : List ℕ) → AreBytes bs → read_u32 bs < u32_mod
unfolding read_u32
read_u32-lt [] h = omega arith
read_u32-lt (a ∷ []) h = omega arith
read_u32-lt (a ∷ b ∷ []) h = omega arith
read_u32-lt (a ∷ b ∷ c ∷ []) h = omega arith
read_u32-lt (a ∷ b ∷ c ∷ d ∷ bs) h = omega arith

pub drop-AreBytes : (n : ℕ) (bs : List ℕ) → AreBytes bs → AreBytes (drop n bs)
drop-AreBytes zero bs h = h
drop-AreBytes (suc n) [] h = tt
drop-AreBytes (suc n) (b ∷ bs) h = drop-AreBytes n bs h.1

pub read_u64-lt : (bs : List ℕ) → AreBytes bs → read_u64 bs < u64_mod
unfolding read_u64
read_u64-lt bs h = omega (arith, read_u32-lt bs h, read_u32-lt (drop 4 bs) (drop-AreBytes 4 bs h))

-- The id and the size that a frame of bytes decodes to fit in 32 and in 64 bits.
pub decode_begin-range :
    (frame : List ℕ) (begin : FileBeginFrame)
    → AreBytes frame
    → decode_begin frame ≡ ok begin
    → (begin.transfer_id < u32_mod) × (begin.file_size < u64_mod)
unfolding decode_begin
decode_begin-range frame begin bytes h = ground (
  arith,
  read_u32-lt (drop 1 frame) (drop-AreBytes 1 frame bytes),
  read_u64-lt (drop 5 frame) (drop-AreBytes 5 frame bytes),
)
