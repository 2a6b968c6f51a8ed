-- ===== src/FileProtocol/RoundTrip.antt =====
-- Decoding what was encoded.
use cipher_chat.Prelude.{
  ℕ, ◌+◌, ◌%◌, ◌≤◌, ◌<◌, ◌≡◌, ◌≢◌, ◌⊎◌, true, List, [], ◌∷◌, ◌++◌, arith, length, length-append,
  take-length, take-append, drop-append,
}
use cipher_chat.Status.{ok, err, eproto}
use cipher_chat.Wire.{
  u16_mod, u32_mod, u64_mod, file_chunk_size, frame_file_begin, frame_file_chunk, frame_file_end,
  frame_file_error, write_u16, write_u32, write_u64,
}
use cipher_chat.Wire.RoundTrip.{read_u16-write_u16, read_u32-write_u32, read_u64-write_u64}
use cipher_chat.FileProtocol.{
  file_begin_fixed_payload_size, file_control_payload_size, valid_peer_name, valid_filename,
  begin_payload, encode_begin, decode_begin, encode_chunk, decode_chunk, encode_control,
  decode_control,
}
use cipher_chat.FileProtocol.Names.{
  valid_peer_name-length, valid_filename-length, bounded-peer, bounded-filename,
}

pub encode_begin_lem :
    (capacity id size : ℕ) (peer filename : List ℕ)
    → valid_peer_name peer ≡ true
    → valid_filename filename ≡ true
    → file_begin_fixed_payload_size + length peer + length filename ≤ capacity
    → encode_begin capacity id size peer filename ≡ ok (begin_payload id size peer filename)
unfolding encode_begin
encode_begin_lem capacity id size peer filename vp vf room =
    rw (bounded-peer peer vp, bounded-filename filename vf, encode_begin)
      (ground (arith, take-length peer, take-length filename))

-- The bytes of a begin payload behind its four numbers.
length-begin_payload :
    (id size : ℕ) (peer filename : List ℕ)
    → length (begin_payload id size peer filename)
      ≡ file_begin_fixed_payload_size + length peer + length filename
unfolding begin_payload write_u16 write_u32 write_u64
length-begin_payload id size peer filename = omega (arith, length-append peer filename)

decode_begin-payload :
    (id size : ℕ) (peer filename : List ℕ)
    → valid_peer_name peer ≡ true
    → valid_filename filename ≡ true
    → id < u32_mod
    → size < u64_mod
    → decode_begin (frame_file_begin ∷ begin_payload id size peer filename)
      ≡ ok (record { transfer_id = id; file_size = size; peer = peer; filename = filename })
unfolding decode_begin begin_payload write_u16 write_u32 write_u64
decode_begin-payload id size peer filename vp vf hid hsize =
    let pl = valid_peer_name-length peer vp in
    let fl = valid_filename-length filename vf in
    let names = write_u16 (length filename % u16_mod) ++ (peer ++ filename) in
    let sizes = write_u16 (length peer % u16_mod) ++ names in
    ground (
      arith,
      length-append peer filename,
      take-append peer filename,
      drop-append peer filename,
      take-length filename,
      read_u32-write_u32 id (write_u64 size ++ sizes) hid,
      read_u64-write_u64 size sizes hsize,
      read_u16-write_u16 (length peer % u16_mod) names,
      read_u16-write_u16 (length filename % u16_mod) (peer ++ filename),
    )

-- A begin payload of valid names and of numbers in range is encoded if the buffer holds it, and the
-- frame with that payload decodes to the same id, size and names.
pub decode-encode_begin :
    (capacity id size : ℕ) (peer filename : List ℕ)
    → valid_peer_name peer ≡ true
    → valid_filename filename ≡ true
    → id < u32_mod
    → size < u64_mod
    → file_begin_fixed_payload_size + length peer + length filename ≤ capacity
    → (payload : List ℕ) × (encode_begin capacity id size peer filename ≡ ok payload)
      × (decode_begin (frame_file_begin ∷ payload)
          ≡ ok (record { transfer_id = id; file_size = size; peer = peer; filename = filename }))
decode-encode_begin capacity id size peer filename vp vf hid hsize room = (
  begin_payload id size peer filename,
  encode_begin_lem capacity id size peer filename vp vf room,
  decode_begin-payload id size peer filename vp vf hid hsize,
)

-- A chunk of 1 to 900 bytes with an id of 32 bits is encoded if the buffer holds it, and the frame
-- with that payload decodes to the same id and bytes.
pub decode-encode_chunk :
    (capacity id : ℕ) (contents : List ℕ)
    → 1 ≤ length contents
    → length contents ≤ file_chunk_size
    → id < u32_mod
    → 4 + length contents ≤ capacity
    → (payload : List ℕ) × (encode_chunk capacity id contents ≡ ok payload)
      × (decode_chunk (frame_file_chunk ∷ payload)
          ≡ ok (record { transfer_id = id; contents = contents }))
unfolding encode_chunk decode_chunk write_u32
decode-encode_chunk capacity id contents lo hi hid room =
    (write_u32 id ++ contents, ground arith, ground (arith, read_u32-write_u32 id contents hid))

-- The payload of a control frame, with an id of 32 bits and a buffer of 4 bytes or more, decodes to
-- that id in a frame of the expected type, end or error, and is refused in a frame of any other
-- type.
pub decode-encode_control :
    (capacity id expected type : ℕ)
    → (expected ≡ frame_file_end) ⊎ (expected ≡ frame_file_error)
    → id < u32_mod
    → file_control_payload_size ≤ capacity
    → (payload : List ℕ) × (encode_control capacity id ≡ ok payload)
      × (decode_control (expected ∷ payload) expected ≡ ok id)
      × (type ≢ expected → decode_control (type ∷ payload) expected ≡ err eproto)
unfolding encode_control decode_control write_u32
decode-encode_control capacity id expected type kind hid room =
    (write_u32 id, ground arith, ground (arith, read_u32-write_u32 id [] hid), λ ne. ground arith)
