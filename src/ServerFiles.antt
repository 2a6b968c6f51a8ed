-- ===== src/ServerFiles.antt =====
-- server_files.c: what the server does with a file frame. The handlers work on the table of clients
-- and on the table of routes; the messages to the sender are frames queued for it. `FileRoutes` has
-- its own `store`, `init` and so on, so its names are written through the module.
pub mod Invariant
pub mod Departure
use cipher_chat.Prelude.{
  ℕ, ◌+◌, Bool, true, false, not, ◌||◌, List, [], ◌∷◌, ◌++◌, ltb, leb, ◌==◌, if◌then◌else◌, length,
}
use cipher_chat.Status.{Result, ok, err, done, einval, emsgsize, eproto, enospc}
use cipher_chat.Text.{codes, decimal, fits, str_eq}
use cipher_chat.Wire.{
  buffer_size, frame_max_size, username_size, frame_file_begin, frame_file_chunk, frame_file_end,
  frame_file_error, byte,
}
use cipher_chat.FileProtocol
use cipher_chat.FileProtocol.{
  FileBeginFrame, FileChunkFrame, file_begin_payload_max_size, file_chunk_payload_max_size,
  file_control_payload_size,
}
use cipher_chat.FileRoutes
use cipher_chat.FileRoutes.{RouteTable, FileRouteEndpoint, file_route_capacity}
use cipher_chat.Registry
use cipher_chat.Registry.{Os, Registry, invalid_client_id}

pub record Server : Type 0 where
  pub registry : Registry
  pub routes : RouteTable

-- A handler returns 0 or -1 with errno.
abbrev pub Outcome : Type 0
Outcome = Result (Unit {0}) × Server

pub data Message : Type 0 where
  frame_too_large invalid_frame_type recipient_disconnected invalid_sender : Message
  malformed_begin duplicate_id limit_reached no_id to_yourself recipient_absent : Message
  begin_too_large unreachable : Message
  invalid_chunk_size malformed_chunk chunk_without_begin overrun chunk_not_encoded : Message
  end_malformed_known malformed_end end_without_begin size_mismatch : Message
  malformed_error error_without_begin : Message

unfoldable pub text : Message → List ℕ
text frame_too_large = codes "File transfer rejected: frame is too large\n"
text invalid_frame_type = codes "File transfer rejected: invalid file frame type\n"
text recipient_disconnected = codes "File transfer failed: recipient disconnected\n"
text invalid_sender = codes "File transfer rejected: invalid sender username\n"
text malformed_begin = codes "File transfer rejected: malformed begin frame\n"
text duplicate_id = codes "File transfer rejected: duplicate transfer id\n"
text limit_reached = codes "File transfer rejected: server transfer limit reached\n"
text no_id = codes "File transfer rejected: no transfer id is available\n"
text to_yourself = codes "File transfer rejected: cannot send a file to yourself\n"
text recipient_absent = codes "File transfer rejected: recipient is not connected\n"
text begin_too_large = codes "File transfer rejected: begin frame is too large\n"
text unreachable = codes "File transfer failed: could not reach recipient\n"
text invalid_chunk_size = codes "File transfer failed: invalid chunk size\n"
text malformed_chunk = codes "File transfer rejected: malformed chunk frame\n"
text chunk_without_begin = codes "File transfer rejected: chunk has no matching begin frame\n"
text overrun = codes "File transfer failed: data exceeds declared file size\n"
text chunk_not_encoded = codes "File transfer failed: could not encode chunk\n"
text end_malformed_known = codes "File transfer failed: malformed end frame\n"
text malformed_end = codes "File transfer rejected: malformed end frame\n"
text end_without_begin = codes "File transfer rejected: end has no matching begin frame\n"
text size_mismatch = codes "File transfer failed: received size does not match declared size\n"
text malformed_error = codes "File transfer rejected: malformed error frame\n"
text error_without_begin = codes "File transfer rejected: error has no matching begin frame\n"

-- The registry part of a call that queues a frame, with the rest of the server kept.
abbrev pub on_registry : Server → Result (Unit {0}) × Registry → Outcome
on_registry s (result, r) = (result, record s { registry = r })

-- `get_username_length`: the characters before the terminator, at most `username_size` of them.
unfoldable pub get_username_length : List ℕ → Bool
get_username_length username =
    if length username == 0 || leb username_size (length username) then false else true

-- The message of `FILE_ROUTE_ADD_DISCARD`.
unfoldable pub discard_message : ℕ → ℕ → List ℕ → List ℕ
unfolding text
discard_message sender_id target_id peer =
    let absent = codes "File transfer rejected: user " ++ (peer ++ codes " is not connected\n") in
    if target_id == sender_id
    then text to_yourself
    else if fits absent buffer_size
    then absent
    else text recipient_absent

module _ (os : Os) where
  -- `send_frame_to_client_id` on the server's state.
  abbrev pub send : Server → ℕ → ℕ → List ℕ → Outcome
  send s client_id type payload =
      on_registry s (Registry.send_frame os s.registry client_id type payload)

  unfoldable pub notify_sender : Server → ℕ → List ℕ → Server
  notify_sender s sender_id message =
      if sender_id == invalid_client_id
      then s
      else record s { registry = (Registry.send_text os s.registry sender_id message).1 }

  unfoldable pub notify_sender_for_transfer : Server → ℕ → ℕ → List ℕ → Server
  unfolding notify_sender
  notify_sender_for_transfer s sender_id source_transfer_id message =
      let formatted =
        codes "Transfer id " ++ (decimal source_transfer_id ++ (codes ": " ++ message)) in
      notify_sender s sender_id (if fits formatted buffer_size then formatted else message)

  -- With the encoded payload, or the error of the encoder.
  unfoldable pub send_control : Server → ℕ → ℕ → Result (List ℕ) → Outcome
  send_control s target_id type (err e) = (err e, s)
  send_control s target_id type (ok payload) = send s target_id type payload

  unfoldable pub send_receiver_error : Server → FileRouteEndpoint → Outcome
  unfolding send_control
  send_receiver_error s endpoint =
      if endpoint.target_id == invalid_client_id
      then (err einval, s)
      else send_control s endpoint.target_id frame_file_error
          (FileProtocol.encode_control file_control_payload_size endpoint.outbound_transfer_id)

  unfoldable pub reject_known_transfer : Server → ℕ → ℕ → List ℕ → Bool → Outcome
  unfolding notify_sender_for_transfer send_receiver_error
  reject_known_transfer s sender_id source_transfer_id message keep_discard =
      let (was_forwarding, previous, table) =
        FileRoutes.quarantine s.routes sender_id source_transfer_id keep_discard in
      let s' : Server = record s { routes = table } in
      let told = if was_forwarding then (send_receiver_error s' previous).1 else s' in
      (err eproto, notify_sender_for_transfer told sender_id source_transfer_id message)

  -- A frame that does not decode: its transfer is rejected if its id can be read.
  unfoldable pub reject_malformed : Server → ℕ → Result ℕ → Message → Message → Bool → Outcome
  unfolding reject_known_transfer notify_sender text
  reject_malformed s sender_id (ok id) known unknown keep_discard =
      reject_known_transfer s sender_id id (text known) keep_discard
  reject_malformed s sender_id (err e) known unknown keep_discard =
      (err eproto, notify_sender s sender_id (text unknown))

  -- The end of `handle_file_begin`, behind `FILE_ROUTE_ADD_READY` and the encoding: the send, and
  -- what follows if it fails.
  unfoldable pub forward_begin : ℕ → ℕ → Outcome → Outcome
  unfolding notify_sender_for_transfer text
  forward_begin sender_id source_transfer_id (ok u, s) = (ok u, s)
  forward_begin sender_id source_transfer_id (err e, s) =
      let (was_forwarding, ignored, table) =
        FileRoutes.quarantine s.routes sender_id source_transfer_id true in
      (
        err e,
        notify_sender_for_transfer (record s { routes = table }) sender_id source_transfer_id
            (text unreachable),
      )

  unfoldable pub send_begin :
      Server → ℕ → FileBeginFrame → FileRouteEndpoint → Result (List ℕ) → Outcome
  unfolding reject_known_transfer forward_begin text
  send_begin s sender_id begin endpoint (err e) =
      reject_known_transfer s sender_id begin.transfer_id (text begin_too_large) true
  send_begin s sender_id begin endpoint (ok payload) =
      forward_begin sender_id begin.transfer_id (send s endpoint.target_id frame_file_begin payload)

  -- The switch on the result of `file_routes_add`.
  unfoldable pub after_add :
      Server → ℕ → List ℕ → FileBeginFrame → ℕ → FileRoutes.AddOutcome → Outcome
  unfolding notify_sender notify_sender_for_transfer send_receiver_error send_begin discard_message
      text
  after_add s₀ sender_id sender_username begin target_id outcome =
      let s : Server = record s₀ { routes = outcome.table } in
      elim outcome.result [
        | FileRoutes.add_duplicate ↦
            let told =
              if outcome.replaced.target_id == invalid_client_id
              then s
              else (send_receiver_error s outcome.replaced).1 in
            (
              err eproto,
              notify_sender_for_transfer told sender_id begin.transfer_id (text duplicate_id),
            )
        | FileRoutes.add_full ↦ (err enospc, notify_sender s sender_id (text limit_reached))
        | FileRoutes.add_id_unavailable ↦ (err enospc, notify_sender s sender_id (text no_id))
        | FileRoutes.add_discard ↦ (
          done,
          notify_sender_for_transfer s sender_id begin.transfer_id
              (discard_message sender_id target_id begin.peer),
        )
        | FileRoutes.add_ready ↦ send_begin s sender_id begin outcome.endpoint (
            FileProtocol.encode_begin file_begin_payload_max_size
              outcome.endpoint.outbound_transfer_id begin.file_size sender_username begin.filename)
      ]

  unfoldable pub route_begin : Server → ℕ → List ℕ → FileBeginFrame → Outcome
  unfolding after_add
  route_begin s sender_id sender_username begin =
      let target_id = Registry.find_client_id s.registry begin.peer in
      after_add s sender_id sender_username begin target_id (
        FileRoutes.add s.routes sender_id begin.transfer_id target_id begin.file_size
          (target_id == invalid_client_id || target_id == sender_id))

  unfoldable pub handle_file_begin : Server → ℕ → List ℕ → List ℕ → Outcome
  unfolding get_username_length notify_sender reject_malformed route_begin text
  handle_file_begin s sender_id sender_username frame =
      if not (get_username_length sender_username)
        || not (FileProtocol.valid_peer_name sender_username)
      then (err einval, notify_sender s sender_id (text invalid_sender))
      else elim (FileProtocol.decode_begin frame) [
        | err e ↦
            reject_malformed s sender_id (FileProtocol.read_transfer_id frame) malformed_begin
              malformed_begin true
        | ok begin ↦ route_begin s sender_id sender_username begin
      ]

  -- The end of `handle_file_chunk`.
  unfoldable pub forward_chunk : ℕ → ℕ → ℕ → Outcome → Outcome
  unfolding notify_sender_for_transfer text
  forward_chunk sender_id source_transfer_id outbound_transfer_id (ok u, s) = (ok u, s)
  forward_chunk sender_id source_transfer_id outbound_transfer_id (err e, s) =
      let (converted, table) =
        FileRoutes.mark_forward_failed s.routes sender_id source_transfer_id outbound_transfer_id in
      let s' : Server = record s { routes = table } in
      (
        err e,
        (if converted
            then notify_sender_for_transfer s' sender_id source_transfer_id
                (text recipient_disconnected)
            else s'),
      )

  unfoldable pub send_chunk :
      Server → ℕ → FileChunkFrame → FileRouteEndpoint → Result (List ℕ) → Outcome
  unfolding reject_known_transfer forward_chunk text
  send_chunk s sender_id chunk endpoint (err e) =
      reject_known_transfer s sender_id chunk.transfer_id (text chunk_not_encoded) true
  send_chunk s sender_id chunk endpoint (ok payload) =
      forward_chunk sender_id chunk.transfer_id endpoint.outbound_transfer_id
        (send s endpoint.target_id frame_file_chunk payload)

  -- The switch on the result of `file_routes_accept_chunk`.
  unfoldable pub after_accept : Server → ℕ → FileChunkFrame → FileRoutes.ChunkOutcome → Outcome
  unfolding notify_sender_for_transfer send_receiver_error send_chunk text
  after_accept s₀ sender_id chunk (result, endpoint, table) =
      let s : Server = record s₀ { routes = table } in
      elim result [
        | FileRoutes.chunk_missing ↦ (
          err eproto,
          notify_sender_for_transfer s sender_id chunk.transfer_id (text chunk_without_begin),
        )
        | FileRoutes.chunk_discard ↦ (done, s)
        | FileRoutes.chunk_overrun ↦ (
          err eproto,
          notify_sender_for_transfer (send_receiver_error s endpoint).1 sender_id chunk.transfer_id
              (text overrun),
        )
        | FileRoutes.chunk_ready ↦ send_chunk s sender_id chunk endpoint (
            FileProtocol.encode_chunk file_chunk_payload_max_size endpoint.outbound_transfer_id
              chunk.contents)
      ]

  unfoldable pub handle_file_chunk : Server → ℕ → List ℕ → Outcome
  unfolding reject_malformed after_accept
  handle_file_chunk s sender_id frame = elim (FileProtocol.decode_chunk frame) [
    | err e ↦
        reject_malformed s sender_id (FileProtocol.read_transfer_id frame) invalid_chunk_size
          malformed_chunk true
    | ok chunk ↦
        after_accept s sender_id chunk
          (FileRoutes.accept_chunk s.routes sender_id chunk.transfer_id (length chunk.contents))
  ]

  -- The end of `handle_file_end`.
  unfoldable pub forward_end : ℕ → ℕ → Outcome → Outcome
  unfolding notify_sender_for_transfer text
  forward_end sender_id source_transfer_id (ok u, s) = (ok u, s)
  forward_end sender_id source_transfer_id (err e, s) = (
    err e,
    notify_sender_for_transfer s sender_id source_transfer_id (text recipient_disconnected),
  )

  -- The switch of `handle_file_end` on the result of `file_routes_finish`.
  unfoldable pub after_end : Server → ℕ → ℕ → FileRoutes.FinishOutcome → Outcome
  unfolding notify_sender_for_transfer send_receiver_error forward_end send_control text
  after_end s₀ sender_id source_transfer_id (result, endpoint, table) =
      let s : Server = record s₀ { routes = table } in
      elim result [
        | FileRoutes.finish_missing ↦ (
          err eproto,
          notify_sender_for_transfer s sender_id source_transfer_id (text end_without_begin),
        )
        | FileRoutes.finish_discard ↦ (done, s)
        | FileRoutes.finish_incomplete ↦ (
          err eproto,
          notify_sender_for_transfer (send_receiver_error s endpoint).1 sender_id source_transfer_id
              (text size_mismatch),
        )
        | FileRoutes.finish_ready ↦ forward_end sender_id source_transfer_id (
            send_control s endpoint.target_id frame_file_end
              (FileProtocol.encode_control file_control_payload_size endpoint.outbound_transfer_id))
      ]

  unfoldable pub handle_file_end : Server → ℕ → List ℕ → Outcome
  unfolding reject_malformed after_end
  handle_file_end s sender_id frame = elim (FileProtocol.decode_control frame frame_file_end) [
    | err e ↦
        reject_malformed s sender_id (FileProtocol.read_transfer_id frame) end_malformed_known
          malformed_end false
    | ok id ↦ after_end s sender_id id (FileRoutes.finish s.routes sender_id id true)
  ]

  -- The switch of `handle_file_error`.
  unfoldable pub after_error : Server → ℕ → ℕ → FileRoutes.FinishOutcome → Outcome
  unfolding notify_sender_for_transfer send_receiver_error text
  after_error s₀ sender_id source_transfer_id (result, endpoint, table) =
      let s : Server = record s₀ { routes = table } in
      elim result [
        | FileRoutes.finish_missing ↦ (
          err eproto,
          notify_sender_for_transfer s sender_id source_transfer_id (text error_without_begin),
        )
        | FileRoutes.finish_discard ↦ (done, s)
        | _ ↦ send_receiver_error s endpoint
      ]

  unfoldable pub handle_file_error : Server → ℕ → List ℕ → Outcome
  unfolding reject_malformed after_error
  handle_file_error s sender_id frame = elim (FileProtocol.decode_control frame frame_file_error) [
    | err e ↦
        reject_malformed s sender_id (FileProtocol.read_transfer_id frame) malformed_error
          malformed_error false
    | ok id ↦ after_error s sender_id id (FileRoutes.finish s.routes sender_id id false)
  ]

  -- `route_file_frame`
  unfoldable pub route_file_frame : Server → ℕ → List ℕ → List ℕ → Outcome
  unfolding notify_sender handle_file_begin handle_file_chunk handle_file_end handle_file_error text
  route_file_frame s sender_id sender_username frame =
      if sender_id == invalid_client_id || length frame == 0
      then (err einval, s)
      else if ltb frame_max_size (length frame)
      then (err emsgsize, notify_sender s sender_id (text frame_too_large))
      else if byte frame 0 == frame_file_begin
      then handle_file_begin s sender_id sender_username frame
      else if byte frame 0 == frame_file_chunk
      then handle_file_chunk s sender_id frame
      else if byte frame 0 == frame_file_end
      then handle_file_end s sender_id frame
      else if byte frame 0 == frame_file_error
      then handle_file_error s sender_id frame
      else (err eproto, notify_sender s sender_id (text invalid_frame_type))

  -- The loop over the actions of `abort_file_routes_for_client`.
  unfoldable pub carry_out : Server → List FileRoutes.FileRouteAbortAction → Server
  unfolding send_receiver_error notify_sender text
  carry_out s [] = s
  carry_out s (FileRoutes.abort_send_error client_id outbound ∷ rest) =
      carry_out
        (send_receiver_error s
          (record { target_id = client_id; outbound_transfer_id = outbound })).1
        rest
  carry_out s (FileRoutes.abort_notify_sender client_id ∷ rest) =
      carry_out (notify_sender s client_id (text recipient_disconnected)) rest

  unfoldable pub abort_file_routes_for_client : Server → ℕ → Server
  unfolding carry_out
  abort_file_routes_for_client s client_id =
      if client_id == invalid_client_id
      then s
      else let (actions, table) = FileRoutes.abort_client s.routes client_id file_route_capacity in
        carry_out (record s { routes = table }) actions
