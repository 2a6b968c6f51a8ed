-- ===== src/Tests/Frames.antt =====
-- Witnesses on frames and on the connection.
use cipher_chat.Prelude.{
  ℕ, ◌≤◌, ◌≡◌, refl, ◌≢◌, inl, false, List, [], ◌∷◌, ◌++◌, arith, length, drop,
}
use cipher_chat.Status.{ok, err, eproto}
use cipher_chat.Text.{codes, isspace, iscntrl}
use cipher_chat.Wire.{
  read_u16, read_u32, read_u64, write_u32, is_valid_frame_type, frame_file_begin, frame_file_chunk,
  frame_file_end, frame_text, file_chunk_size,
}
use cipher_chat.Wire.RoundTrip.{AreBytes}
use cipher_chat.FileProtocol.{
  FileBeginFrame, FileChunkFrame, valid_peer_name, every, peer_byte, valid_filename, filename_byte,
  encode_begin, decode_begin, encode_chunk, decode_chunk, encode_control, decode_control,
  begin_payload, file_begin_payload_max_size, file_chunk_payload_max_size, chunk_header_length,
}
use cipher_chat.FileProtocol.RoundTrip.{
  decode-encode_begin, decode-encode_chunk, decode-encode_control,
}
use cipher_chat.FileProtocol.Canonical.{decode_begin-canonical}
use cipher_chat.FileProtocol.Reencode.{encode_begin-decoded, encode_chunk-decoded}
use cipher_chat.Transport.{
  ReadEvent, arrived, want_read, WriteEvent, accepted, retry, ready, receive_frame, send_frame,
  recv_all,
}
use cipher_chat.Transport.Receive.{bytes_of, Returns, recv_all-Returns}
use cipher_chat.Transport.RoundTrip.{receive_frame-frame}
use cipher_chat.Transport.Send.{Wrote, send_frame-Wrote}
use cipher_chat.Transport.Completes.{AllSent, writes, send_frame-AllSent}

abbrev bob : List ℕ
bob = codes "bob"

abbrev notes : List ℕ
notes = codes "notes.txt"

decode-encode_begin_example :
    (payload : List ℕ) × (encode_begin file_begin_payload_max_size 7 300 bob notes ≡ ok payload)
    × (decode_begin (frame_file_begin ∷ payload)
        ≡ ok (record { transfer_id = 7; file_size = 300; peer = bob; filename = notes }))
unfolding valid_peer_name every peer_byte isspace iscntrl valid_filename filename_byte
decode-encode_begin_example =
    decode-encode_begin file_begin_payload_max_size 7 300 bob notes refl refl (omega arith)
      (omega arith) (omega arith)

decode-encode_chunk_example :
    (payload : List ℕ) × (encode_chunk file_chunk_payload_max_size 7 notes ≡ ok payload)
    × (decode_chunk (frame_file_chunk ∷ payload)
        ≡ ok (record { transfer_id = 7; contents = notes }))
decode-encode_chunk_example =
    decode-encode_chunk file_chunk_payload_max_size 7 notes (omega arith) (omega arith)
      (omega arith) (omega arith)

decode-encode_control_example :
    (payload : List ℕ) × (encode_control 4 7 ≡ ok payload)
    × (decode_control (frame_file_end ∷ payload) frame_file_end ≡ ok 7)
    × (3 ≢ frame_file_end → decode_control (3 ∷ payload) frame_file_end ≡ err eproto)
decode-encode_control_example =
    decode-encode_control 4 7 frame_file_end 3 (inl refl) (omega arith) (omega arith)

-- The begin frame of a file of 300 bytes.
abbrev begin_frame : List ℕ
begin_frame = 0 ∷ 0 ∷ 0 ∷ 0 ∷ 7 ∷ 0 ∷ 0 ∷ 0 ∷ 0 ∷ 0 ∷ 0 ∷ 1 ∷ 44 ∷ 0 ∷ 3 ∷ 0 ∷ 9 ∷ (bob ++ notes)

abbrev begin_fields : FileBeginFrame
begin_fields = record { transfer_id = 7; file_size = 300; peer = bob; filename = notes }

begin_frame-AreBytes : AreBytes begin_frame
begin_frame-AreBytes = ground arith

begin_frame-decodes : decode_begin begin_frame ≡ ok begin_fields
unfolding decode_begin read_u16 read_u32 read_u64 valid_peer_name every peer_byte isspace iscntrl
    valid_filename filename_byte
begin_frame-decodes = refl

decode_begin-canonical_example : begin_frame ≡ frame_file_begin ∷ begin_payload 7 300 bob notes
decode_begin-canonical_example =
    decode_begin-canonical begin_frame begin_fields begin_frame-AreBytes begin_frame-decodes

encode_begin-decoded_example :
    encode_begin file_begin_payload_max_size 12 300 (codes "alice") notes
    ≡ ok (begin_payload 12 300 (codes "alice") notes)
unfolding valid_peer_name every peer_byte isspace iscntrl
encode_begin-decoded_example =
    encode_begin-decoded begin_frame begin_fields 12 (codes "alice") begin_frame-decodes refl

abbrev chunk_frame : List ℕ
chunk_frame = 1 ∷ 0 ∷ 0 ∷ 0 ∷ 7 ∷ notes

abbrev chunk_fields : FileChunkFrame
chunk_fields = record { transfer_id = 7; contents = notes }

chunk_frame-decodes : decode_chunk chunk_frame ≡ ok chunk_fields
unfolding decode_chunk read_u32
chunk_frame-decodes = refl

encode_chunk-decoded_example :
    (1 ≤ length notes)
    × (length notes ≤ file_chunk_size)
    × (encode_chunk file_chunk_payload_max_size 12 notes ≡ ok (write_u32 12 ++ notes))
    × (notes ≡ drop chunk_header_length chunk_frame)
encode_chunk-decoded_example = encode_chunk-decoded chunk_frame chunk_fields 12 chunk_frame-decodes

-- A text frame cut into two reads, with a retry between them, and the start of another frame.
abbrev reads : List ReadEvent
reads = arrived (0 ∷ 0 ∷ []) ∷ want_read false ∷ arrived (0 ∷ 4 ∷ 4 ∷ (bob ++ (0 ∷ 0 ∷ []))) ∷ []

reads-frame : bytes_of reads ≡ write_u32 4 ++ ((frame_text ∷ bob) ++ (0 ∷ 0 ∷ []))
unfolding write_u32
reads-frame = refl

receive_frame-frame_example :
    Returns (receive_frame false 66000 reads) (frame_text ∷ bob) (0 ∷ 0 ∷ [])
unfolding is_valid_frame_type
receive_frame-frame_example =
    receive_frame-frame 66000 frame_text bob (0 ∷ 0 ∷ []) reads refl (omega arith) (omega arith)
      (refl, tt) reads-frame

recv_all-Returns_example :
    Returns (recv_all false 4 reads) (0 ∷ 0 ∷ 0 ∷ 4 ∷ []) (frame_text ∷ (bob ++ (0 ∷ 0 ∷ [])))
recv_all-Returns_example = recv_all-Returns 4 reads (refl, tt) (omega arith)

abbrev one_by_one : List WriteEvent
one_by_one =
    accepted 1
    ∷ accepted 1
    ∷ retry ready
    ∷ accepted 1
    ∷ accepted 1
    ∷ accepted 1
    ∷ accepted 1
    ∷ accepted 1
    ∷ accepted 1
    ∷ []

send_frame-AllSent_example :
    AllSent
      (send_frame false frame_text bob one_by_one)
      (length (frame_text ∷ bob))
      (write_u32 (length (frame_text ∷ bob)) ++ (frame_text ∷ bob))
      (writes one_by_one)
unfolding is_valid_frame_type
send_frame-AllSent_example =
    send_frame-AllSent frame_text bob one_by_one refl (omega arith) (ground arith) (omega arith)

send_frame-Wrote_example :
    Wrote
      (send_frame false frame_text bob one_by_one)
      (write_u32 (length (frame_text ∷ bob)) ++ (frame_text ∷ bob))
unfolding is_valid_frame_type
send_frame-Wrote_example = send_frame-Wrote frame_text bob one_by_one refl (omega arith)
