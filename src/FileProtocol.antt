-- ===== src/FileProtocol.antt =====
-- file_protocol.h and file_protocol.c: the payloads of file frames. A pointer with a length is the
-- list of its bytes, so the tests for NULL have no counterpart; an output buffer and its length are
-- the list returned. A frame is a payload behind its type byte.
pub mod Names
pub mod RoundTrip
pub mod Reencode
pub mod Canonical
use cipher_chat.Prelude.{
  ℕ, zero, suc, ◌+◌, ◌-◌, ◌*◌, ◌%◌, Bool, true, false, not, ◌&&◌, ◌||◌, Option, none, some, List,
  [], ◌∷◌, ◌++◌, ltb, leb, ◌==◌, if◌then◌else◌, length, take, drop,
}
use cipher_chat.Prelude.Table.{shift}
use cipher_chat.Status.{Result, ok, err, einval, emsgsize, eproto}
use cipher_chat.Text.{isspace, iscntrl}
use cipher_chat.Wire.{
  u16_mod, u32_mod, u64_mod, username_size, file_chunk_size, frame_file_begin, frame_file_chunk,
  frame_file_end, frame_file_error, byte, read_u16, read_u32, read_u64, write_u16, write_u32,
  write_u64,
}

abbrev pub file_name_max_length : ℕ
file_name_max_length = 255

abbrev pub file_begin_fixed_payload_size : ℕ
file_begin_fixed_payload_size = 4 + 2 * 4 + 2 * 2

abbrev pub file_begin_payload_max_size : ℕ
file_begin_payload_max_size =
    file_begin_fixed_payload_size + (username_size - 1) + file_name_max_length

abbrev pub file_chunk_payload_max_size : ℕ
file_chunk_payload_max_size = 4 + file_chunk_size

abbrev pub file_control_payload_size : ℕ
file_control_payload_size = 4

-- `peer` and `filename` are the strings in the arrays.
pub record FileBeginFrame : Type 0 where
  pub transfer_id : ℕ
  pub file_size : ℕ
  pub peer : List ℕ
  pub filename : List ℕ

-- `data_length` is the length of `contents`.
pub record FileChunkFrame : Type 0 where
  pub transfer_id : ℕ
  pub contents : List ℕ

-- The string `value` stands in memory with its terminator behind it; a zero byte in it ends it too.
unfoldable pub bounded_string_length : List ℕ → ℕ → Option ℕ
bounded_string_length [] maximum = some 0
bounded_string_length (c ∷ cs) zero = if c == 0 then some 0 else none
bounded_string_length (c ∷ cs) (suc maximum) =
    if c == 0 then some 0 else shift (bounded_string_length cs maximum)

unfoldable pub peer_byte : ℕ → Bool
peer_byte c = not (c == 0 || isspace c || iscntrl c)

unfoldable pub filename_byte : ℕ → Bool
filename_byte c = not (c == 0 || c == b'/' || c == b'\\' || iscntrl c)

-- The loop over the bytes of a name, which stops at the first one refused.
unfoldable pub every : (ℕ → Bool) → List ℕ → Bool
every p [] = true
every p (c ∷ cs) = if p c then every p cs else false

unfoldable pub valid_peer_name : List ℕ → Bool
valid_peer_name name =
    if length name == 0 || leb username_size (length name) then false else every peer_byte name

unfoldable pub valid_filename : List ℕ → Bool
valid_filename name =
    if length name == 0 || ltb file_name_max_length (length name)
    then false
    else if length name == 1 && byte name 0 == b'.'
        || length name == 2 && byte name 0 == b'.' && byte name 1 == b'.'
    then false
    else every filename_byte name

-- What is written at the successive offsets.
unfoldable pub begin_payload : ℕ → ℕ → List ℕ → List ℕ → List ℕ
begin_payload transfer_id file_size peer filename =
    write_u32 transfer_id
    ++ (write_u64 file_size
        ++ (write_u16 (length peer % u16_mod)
            ++ (write_u16 (length filename % u16_mod) ++ (peer ++ filename))))

-- The part of `encode_begin` behind the two lengths.
unfoldable pub encode_begin_names : ℕ → ℕ → ℕ → List ℕ → List ℕ → Result (List ℕ)
unfolding begin_payload
encode_begin_names capacity transfer_id file_size peer filename =
    if not (valid_peer_name peer) || not (valid_filename filename)
    then err einval
    else if ltb capacity (file_begin_fixed_payload_size + length peer + length filename)
    then err emsgsize
    else ok (begin_payload transfer_id file_size peer filename)

unfoldable pub encode_begin : ℕ → ℕ → ℕ → List ℕ → List ℕ → Result (List ℕ)
unfolding encode_begin_names
encode_begin capacity transfer_id file_size peer filename =
    elim (bounded_string_length peer (username_size - 1)) [
      | none ↦ err einval
      | some peer_length ↦ elim (bounded_string_length filename file_name_max_length) [
        | none ↦ err einval
        | some filename_length ↦
            encode_begin_names capacity transfer_id file_size (take peer_length peer)
              (take filename_length filename)
      ]
    ]

abbrev pub begin_header_length : ℕ
begin_header_length = 1 + file_begin_fixed_payload_size

unfoldable pub decode_begin : List ℕ → Result FileBeginFrame
decode_begin frame =
    if ltb (length frame) begin_header_length || not (byte frame 0 == frame_file_begin)
    then err eproto
    else let peer_length = read_u16 (drop 13 frame) in
      let filename_length = read_u16 (drop 15 frame) in
      let peer = take peer_length (drop 17 frame) in
      let filename = take filename_length (drop peer_length (drop 17 frame)) in
      if not (peer_length + filename_length == length frame - begin_header_length)
        || not (valid_peer_name peer)
        || not (valid_filename filename)
      then err eproto
      else ok (record {
        transfer_id = read_u32 (drop 1 frame);
        file_size = read_u64 (drop 5 frame);
        peer = peer;
        filename = filename;
      })

unfoldable pub encode_chunk : ℕ → ℕ → List ℕ → Result (List ℕ)
encode_chunk capacity transfer_id contents =
    if length contents == 0 || ltb file_chunk_size (length contents)
    then err einval
    else if ltb capacity (4 + length contents)
    then err emsgsize
    else ok (write_u32 transfer_id ++ contents)

abbrev pub chunk_header_length : ℕ
chunk_header_length = 5

unfoldable pub decode_chunk : List ℕ → Result FileChunkFrame
decode_chunk frame =
    if leb (length frame) chunk_header_length
      || not (byte frame 0 == frame_file_chunk)
      || ltb (chunk_header_length + file_chunk_size) (length frame)
    then err eproto
    else ok (record {
      transfer_id = read_u32 (drop 1 frame);
      contents = drop chunk_header_length frame;
    })

unfoldable pub encode_control : ℕ → ℕ → Result (List ℕ)
encode_control capacity transfer_id =
    if ltb capacity file_control_payload_size then err emsgsize else ok (write_u32 transfer_id)

unfoldable pub decode_control : List ℕ → ℕ → Result ℕ
decode_control frame expected_type =
    if not (expected_type == frame_file_end) && not (expected_type == frame_file_error)
    then err einval
    else if not (length frame == 1 + file_control_payload_size)
        || not (byte frame 0 == expected_type)
    then err eproto
    else ok (read_u32 (drop 1 frame))

unfoldable pub read_transfer_id : List ℕ → Result ℕ
read_transfer_id frame = if ltb (length frame) 5 then err eproto else ok (read_u32 (drop 1 frame))
