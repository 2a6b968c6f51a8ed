-- ===== src/FileSender.antt =====
-- client_file_sender.c: `send_file`. What the file system, malloc, the random bytes and send_frame
-- (`Transport`) answer are parameters. A frame that is passed to send_frame is recorded on the `Line`.
pub mod Frames
use cipher_chat.Prelude.{
  ℕ, zero, suc, ◌+◌, ◌-◌, ◌%◌, Bool, true, false, not, ◌||◌, ◌&&◌, Option, none, some, List, [],
  ◌∷◌, ◌++◌, ltb, ◌==◌, if◌then◌else◌, length, take, drop,
}
use cipher_chat.Status.{Errno, Result, ok, err, done, einval, enomem, eio, efbig}
use cipher_chat.Wire.{
  u32_mod, file_chunk_size, frame_file_begin, frame_file_chunk, frame_file_end, frame_file_error,
}
use cipher_chat.FileProtocol.{
  valid_peer_name, valid_filename, encode_begin, encode_chunk, encode_control,
  file_begin_payload_max_size, file_chunk_payload_max_size, file_control_payload_size,
}
use cipher_chat.FileCrypto.{Box, encrypt_file, file_plaintext_max_size}

-- What `fstat` tells.
pub record FileStatus : Type 0 where
  pub regular : Bool
  pub size : ℕ

-- The file at the path: fopen, fstat, the bytes that it holds while it is read, and fclose; and what
-- malloc (for both buffers) and randombytes_buf give.
pub record Source : Type 0 where
  pub fopen : Result (Unit {0})
  pub fstat : Result FileStatus
  pub contents : List ℕ
  pub fclose : Result (Unit {0})
  pub malloc : Bool
  pub nonce : List ℕ

-- The frames that send_frame has been called with, and what its n-th call returns.
pub record Line : Type 0 where
  pub frames : List (ℕ × List ℕ)
  pub answer : ℕ → Result (Unit {0})

unfoldable pub send_frame : Line → ℕ → List ℕ → Result (Unit {0}) × Line
send_frame line type payload =
    (line.answer (length line.frames), record line { frames = line.frames ++ (type, payload) ∷ [] })

-- The id and the counter behind it; 0 is left out.
unfoldable pub create_transfer_id : ℕ → ℕ × ℕ
create_transfer_id next = if next == 0 then (1, 2) else (next, (next + 1) % u32_mod)

unfoldable pub get_regular_file_size : Result FileStatus → Result ℕ
get_regular_file_size (err e) = err e
get_regular_file_size (ok status) = if status.regular then ok status.size else err einval

-- `strrchr(path, '/')`: what stands behind the last separator.
unfoldable pub last_part : List ℕ → List ℕ → List ℕ
last_part name [] = name
last_part name (c ∷ cs) = last_part (if c == 47 then cs else name) cs

unfoldable pub path_basename : List ℕ → Option (List ℕ)
unfolding last_part
path_basename [] = none
path_basename (c ∷ cs) = some (last_part (c ∷ cs) (c ∷ cs))

abbrev pub send_payload : Line → ℕ → Result (List ℕ) → Result (Unit {0}) × Line
send_payload line type (err e) = (err e, line)
send_payload line type (ok payload) = send_frame line type payload

unfoldable pub send_file_begin : Line → ℕ → List ℕ → List ℕ → ℕ → Result (Unit {0}) × Line
unfolding send_frame
send_file_begin line transfer_id recipient filename file_size =
    send_payload line frame_file_begin
      (encode_begin file_begin_payload_max_size transfer_id file_size recipient filename)

unfoldable pub send_file_chunk : Line → ℕ → List ℕ → Result (Unit {0}) × Line
unfolding send_frame
send_file_chunk line transfer_id chunk =
    send_payload line frame_file_chunk (encode_chunk file_chunk_payload_max_size transfer_id chunk)

unfoldable pub send_file_control : Line → ℕ → ℕ → Result (Unit {0}) × Line
unfolding send_frame
send_file_control line type transfer_id =
    if not (type == frame_file_end) && not (type == frame_file_error)
    then (err einval, line)
    else send_payload line type (encode_control file_control_payload_size transfer_id)

-- The loop over the encrypted bytes, with those that are left. Each round takes at least one byte, so
-- their number is fuel enough.
unfoldable pub send_chunks : ℕ → Line → ℕ → List ℕ → Result (Unit {0}) × Line
unfolding send_file_chunk
send_chunks fuel line transfer_id [] = (done, line)
send_chunks zero line transfer_id (b ∷ bs) = (done, line)
send_chunks (suc fuel) line transfer_id (b ∷ bs) =
    let (result, line') = send_file_chunk line transfer_id (take file_chunk_size (b ∷ bs)) in
    let rest = send_chunks fuel line' transfer_id (drop file_chunk_size (b ∷ bs)) in
    elim result [ err e ↦ (err e, line') | ok u ↦ rest ]

-- `if (... == -1) goto cleanup;` and the next send.
abbrev pub and_then :
    Result (Unit {0}) × Line → (Line → Result (Unit {0}) × Line) → Result (Unit {0}) × Line
and_then (err e, line) next = (err e, line)
and_then (ok u, line) next = next line

-- The three parts of the transfer of the encrypted bytes.
unfoldable pub send_encrypted : Line → ℕ → List ℕ → List ℕ → List ℕ → Result (Unit {0}) × Line
unfolding send_file_begin send_chunks send_file_control
send_encrypted line transfer_id recipient filename encrypted =
    and_then (send_file_begin line transfer_id recipient filename (length encrypted)) (λ begun.
      and_then (send_chunks (length encrypted) begun transfer_id encrypted)
        (λ sent. send_file_control sent frame_file_end transfer_id))

module _ (box : Box) where
  -- Behind fopen and get_regular_file_size: the file is read whole, and its size must be the one that
  -- fstat told; then it is closed and encrypted.
  unfoldable pub read_and_encrypt : Source → List ℕ → ℕ → List ℕ → List ℕ → List ℕ → Result (List ℕ)
  read_and_encrypt source filename file_size recipient_public_key public_key private_key =
      if ltb file_plaintext_max_size file_size
      then err efbig
      else if not source.malloc
      then err enomem
      else if not (length source.contents == file_size)
      then err eio
      else elim source.fclose [
        | err e ↦ err e
        | ok u ↦
            encrypt_file box filename source.contents source.nonce recipient_public_key public_key
              private_key
      ]

  -- `send_file`: the result, the frames sent and the counter of transfer ids.
  unfoldable pub send_file :
      Line → ℕ → Source → List ℕ → List ℕ → List ℕ → List ℕ → List ℕ → Result (Unit {0}) × Line × ℕ
  unfolding read_and_encrypt send_encrypted create_transfer_id get_regular_file_size path_basename
  send_file line next source recipient path recipient_public_key public_key private_key =
      elim (path_basename path) [
        | none ↦ (err einval, line, next)
        | some filename ↦
            if not (valid_peer_name recipient) || not (valid_filename filename)
            then (err einval, line, next)
            else elim source.fopen [
              | err e ↦ (err e, line, next)
              | ok u ↦ elim (get_regular_file_size source.fstat) [
                | err e ↦ (err e, line, next)
                | ok file_size ↦
                    elim (read_and_encrypt source filename file_size recipient_public_key public_key
                      private_key) [
                        | err e ↦ (err e, line, next)
                        | ok encrypted ↦
                            let (transfer_id, next') = create_transfer_id next in
                            let (result, line') =
                              send_encrypted line transfer_id recipient filename encrypted in
                            (result, line', next')
                      ]
              ]
            ]
      ]
