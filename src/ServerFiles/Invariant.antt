-- ===== src/ServerFiles/Invariant.antt =====
-- Each handler keeps the invariants of both tables, whatever the frame is.
use cipher_chat.Prelude.{
  ℕ, ◌<◌, ◌≡◌, refl, ◌≢◌, Bool, true, false, not, ◌||◌, List, [], ◌∷◌, arith, inl, inr, ◌==◌,
  if◌then◌else◌, length, ltb, Bool-cases, if_cases,
}
use cipher_chat.Status.{Result-cases, Result, ok, err}
use cipher_chat.Wire.{
  u64_mod, frame_max_size, byte, frame_file_begin, frame_file_chunk, frame_file_end,
  frame_file_error,
}
use cipher_chat.Wire.RoundTrip.{AreBytes}
use cipher_chat.FileProtocol
use cipher_chat.FileProtocol.{FileBeginFrame, FileChunkFrame}
use cipher_chat.FileProtocol.Reencode.{decode_begin-range}
use cipher_chat.FileRoutes
use cipher_chat.FileRoutes.{RouteTable, file_route_capacity, FileRouteEndpoint}
use cipher_chat.FileRoutes.Invariant as RoutesInvariant
use cipher_chat.FileRoutes.Preserve.{
  quarantine-IsValid, accept_chunk-IsValid, mark_forward_failed-IsValid, finish-IsValid,
  add-IsValid,
}
use cipher_chat.FileRoutes.Abort.{abort_client-IsValid}
use cipher_chat.Registry
use cipher_chat.Registry.{Os, Registry, invalid_client_id}
use cipher_chat.Registry.Invariant as RegistryInvariant
use cipher_chat.Registry.Preserve.{queue_frame-IsValid, send_text-IsValid}
use cipher_chat.ServerFiles.{
  Server, Outcome, Message, malformed_begin, get_username_length, send, notify_sender,
  notify_sender_for_transfer, send_control, send_receiver_error, reject_known_transfer,
  reject_malformed, forward_begin, send_begin, after_add, route_begin, handle_file_begin,
  forward_chunk, send_chunk, after_accept, handle_file_chunk, forward_end, after_end,
  handle_file_end, after_error, handle_file_error, route_file_frame, carry_out,
  abort_file_routes_for_client,
}

pub record IsServer (s : Server) : Type 0 where
  pub registry : RegistryInvariant.IsValid s.registry
  pub routes : RoutesInvariant.IsValid s.routes

record Kept (outcome : Outcome) : Type 0 where
  server : IsServer outcome.1

keep : {result : Result (Unit {0})} {s : Server} → IsServer s → Kept (result, s)
keep v = record { server = v }

kept_if : (b : Bool) {x y : Outcome} → Kept x → Kept y → Kept (if b then x else y)
kept_if true k l = k
kept_if false k l = l

module _ (os : Os) where
  notify_sender-IsServer :
      {s : Server} (v : IsServer s) (id : ℕ) (message : List ℕ)
      → IsServer (notify_sender os s id message)
  unfolding notify_sender
  notify_sender-IsServer {s} v id message = elim (Bool-cases (id == invalid_client_id)) [
    | inl e ↦ rw e v
    | inr e ↦
        rw e (record { registry = send_text-IsValid v.registry os id message; routes = v.routes })
  ]

  told :
      {s : Server} (v : IsServer s) (id x : ℕ) (message : List ℕ)
      → IsServer (notify_sender_for_transfer os s id x message)
  unfolding notify_sender_for_transfer
  told v id x message = notify_sender-IsServer v id _

  send-IsServer :
      {s : Server} (v : IsServer s) (id type : ℕ) (payload : List ℕ)
      → IsServer (send os s id type payload).1
  unfolding Registry.send_frame
  send-IsServer v id type payload = record {
    registry = queue_frame-IsValid v.registry os id type payload;
    routes = v.routes;
  }

  send_control-IsServer :
      {s : Server} (v : IsServer s) (id type : ℕ) (payload : Result (List ℕ))
      → IsServer (send_control os s id type payload).1
  unfolding send_control
  send_control-IsServer v id type (ok payload) = send-IsServer v id type payload
  send_control-IsServer v id type (err e) = v

  receiver_told :
      {s : Server} (v : IsServer s) (endpoint : FileRouteEndpoint)
      → IsServer (send_receiver_error os s endpoint).1
  unfolding send_receiver_error
  receiver_told v endpoint = elim (Bool-cases (endpoint.target_id == invalid_client_id)) [
    | inl e ↦ rw e v
    | inr e ↦ rw e (send_control-IsServer v endpoint.target_id frame_file_error _)
  ]

  with_routes :
      {s : Server} (v : IsServer s) {t : RouteTable}
      → RoutesInvariant.IsValid t
      → IsServer (record s { routes = t })
  with_routes v w = record { registry = v.registry; routes = w }

  module _ (sender_id : ℕ) (given : sender_id ≢ invalid_client_id) where
    reject_known-IsServer :
        {s : Server} (v : IsServer s) (x : ℕ) (message : List ℕ) (keep : Bool)
        → IsServer (reject_known_transfer os s sender_id x message keep).1
    unfolding reject_known_transfer
    reject_known-IsServer {s} v x message keep =
        let w = with_routes v (quarantine-IsValid v.routes sender_id x given keep) in
        elim (Bool-cases (FileRoutes.quarantine s.routes sender_id x keep).0) [
          | inl e ↦ rw e (told (receiver_told w _) sender_id x message)
          | inr e ↦ rw e (told w sender_id x message)
        ]

    reject_malformed-IsServer :
        {s : Server} (v : IsServer s) (id : Result ℕ) (known unknown : Message) (keep : Bool)
        → IsServer (reject_malformed os s sender_id id known unknown keep).1
    unfolding reject_malformed
    reject_malformed-IsServer v (ok id) known unknown keep = reject_known-IsServer v id _ keep
    reject_malformed-IsServer v (err e) known unknown keep = notify_sender-IsServer v sender_id _

    forward_begin-IsServer :
        (x : ℕ) (outcome : Outcome)
        → IsServer outcome.1
        → IsServer (forward_begin os sender_id x outcome).1
    unfolding forward_begin
    forward_begin-IsServer x (ok u, s) v = v
    forward_begin-IsServer x (err e, s) v =
        told (with_routes v (quarantine-IsValid v.routes sender_id x given true)) sender_id x _

    send_begin-IsServer :
        {s : Server} (v : IsServer s) (begin : FileBeginFrame) (endpoint : FileRouteEndpoint)
        (payload : Result (List ℕ))
        → IsServer (send_begin os s sender_id begin endpoint payload).1
    unfolding send_begin
    send_begin-IsServer v begin endpoint (err e) = reject_known-IsServer v begin.transfer_id _ true
    send_begin-IsServer v begin endpoint (ok payload) =
        forward_begin-IsServer begin.transfer_id _
          (send-IsServer v endpoint.target_id frame_file_begin payload)

    forward_chunk-IsServer :
        (x outbound : ℕ) (outcome : Outcome)
        → IsServer outcome.1
        → IsServer (forward_chunk os sender_id x outbound outcome).1
    unfolding forward_chunk
    forward_chunk-IsServer x outbound (ok u, s) v = v
    forward_chunk-IsServer x outbound (err e, s) v =
        let w = with_routes v (mark_forward_failed-IsValid v.routes sender_id x given outbound) in
        elim (Bool-cases (FileRoutes.mark_forward_failed s.routes sender_id x outbound).0) [
          | inl e ↦ rw e (told w sender_id x _)
          | inr e ↦ rw e w
        ]

    send_chunk-IsServer :
        {s : Server} (v : IsServer s) (chunk : FileChunkFrame) (endpoint : FileRouteEndpoint)
        (payload : Result (List ℕ))
        → IsServer (send_chunk os s sender_id chunk endpoint payload).1
    unfolding send_chunk
    send_chunk-IsServer v chunk endpoint (err e) = reject_known-IsServer v chunk.transfer_id _ true
    send_chunk-IsServer v chunk endpoint (ok payload) =
        forward_chunk-IsServer chunk.transfer_id endpoint.outbound_transfer_id _
          (send-IsServer v endpoint.target_id _ payload)

    -- The switches, each on the outcome of an operation that kept the table valid.
    after_add-IsServer :
        {s : Server} (v : IsServer s) (sender_username : List ℕ) (begin : FileBeginFrame)
        (target_id : ℕ) (outcome : FileRoutes.AddOutcome)
        → RoutesInvariant.IsValid outcome.table
        → (result : FileRoutes.FileRouteAddResult) → outcome.result ≡ result
        → IsServer (after_add os s sender_id sender_username begin target_id outcome).1
    unfolding after_add
    after_add-IsServer v username begin target_id outcome t FileRoutes.add_duplicate h =
        let w = with_routes v t in
        let replaced_told =
          if_cases IsServer (outcome.replaced.target_id == invalid_client_id) _ _ (λ _. w)
            (λ _. receiver_told w outcome.replaced) in
        rw h (told replaced_told sender_id begin.transfer_id _)
    after_add-IsServer v username begin target_id outcome t FileRoutes.add_full h =
        rw h (notify_sender-IsServer (with_routes v t) sender_id _)
    after_add-IsServer v username begin target_id outcome t FileRoutes.add_id_unavailable h =
        rw h (notify_sender-IsServer (with_routes v t) sender_id _)
    after_add-IsServer v username begin target_id outcome t FileRoutes.add_discard h =
        rw h (told (with_routes v t) sender_id begin.transfer_id _)
    after_add-IsServer v username begin target_id outcome t FileRoutes.add_ready h =
        rw h (send_begin-IsServer (with_routes v t) begin outcome.endpoint _)

    after_accept-IsServer :
        {s : Server} (v : IsServer s) (chunk : FileChunkFrame) (outcome : FileRoutes.ChunkOutcome)
        → RoutesInvariant.IsValid outcome.2
        → IsServer (after_accept os s sender_id chunk outcome).1
    unfolding after_accept
    after_accept-IsServer v chunk (FileRoutes.chunk_missing, endpoint, table) t =
        told (with_routes v t) sender_id chunk.transfer_id _
    after_accept-IsServer v chunk (FileRoutes.chunk_discard, endpoint, table) t = with_routes v t
    after_accept-IsServer v chunk (FileRoutes.chunk_overrun, endpoint, table) t =
        told (receiver_told (with_routes v t) endpoint) sender_id chunk.transfer_id _
    after_accept-IsServer v chunk (FileRoutes.chunk_ready, endpoint, table) t =
        send_chunk-IsServer (with_routes v t) chunk endpoint _

    forward_end-IsServer :
        (x : ℕ) (outcome : Outcome)
        → IsServer outcome.1
        → IsServer (forward_end os sender_id x outcome).1
    unfolding forward_end
    forward_end-IsServer x (ok u, s) v = v
    forward_end-IsServer x (err e, s) v = told v sender_id x _

    after_end-IsServer :
        {s : Server} (v : IsServer s) (x : ℕ) (outcome : FileRoutes.FinishOutcome)
        → RoutesInvariant.IsValid outcome.2
        → IsServer (after_end os s sender_id x outcome).1
    unfolding after_end
    after_end-IsServer v x (FileRoutes.finish_missing, endpoint, table) t =
        told (with_routes v t) sender_id x _
    after_end-IsServer v x (FileRoutes.finish_discard, endpoint, table) t = with_routes v t
    after_end-IsServer v x (FileRoutes.finish_incomplete, endpoint, table) t =
        told (receiver_told (with_routes v t) endpoint) sender_id x _
    after_end-IsServer v x (FileRoutes.finish_ready, endpoint, table) t =
        forward_end-IsServer x _
          (send_control-IsServer (with_routes v t) endpoint.target_id frame_file_end _)

    after_error-IsServer :
        {s : Server} (v : IsServer s) (x : ℕ) (outcome : FileRoutes.FinishOutcome)
        → RoutesInvariant.IsValid outcome.2
        → IsServer (after_error os s sender_id x outcome).1
    unfolding after_error
    after_error-IsServer v x (FileRoutes.finish_missing, endpoint, table) t =
        told (with_routes v t) sender_id x _
    after_error-IsServer v x (FileRoutes.finish_discard, endpoint, table) t = with_routes v t
    after_error-IsServer v x (FileRoutes.finish_incomplete, endpoint, table) t =
        receiver_told (with_routes v t) endpoint
    after_error-IsServer v x (FileRoutes.finish_ready, endpoint, table) t =
        receiver_told (with_routes v t) endpoint

    target_other :
        (target : ℕ)
        → (target == invalid_client_id || target == sender_id) ≡ false
        → sender_id ≢ target
    target_other target h = ground arith

    route_begin-IsServer :
        {s : Server} (v : IsServer s) (sender_username : List ℕ) (begin : FileBeginFrame)
        → begin.file_size < u64_mod
        → IsServer (route_begin os s sender_id sender_username begin).1
    unfolding route_begin
    route_begin-IsServer {s} v username begin big =
        let target_id = Registry.find_client_id s.registry begin.peer in
        after_add-IsServer v username begin target_id
          (FileRoutes.add s.routes sender_id begin.transfer_id target_id begin.file_size
            (target_id == invalid_client_id || target_id == sender_id))
          (add-IsValid v.routes sender_id begin.transfer_id target_id begin.file_size given big _
            (target_other target_id))
          _ refl

    decoded :
        {s : Server} (v : IsServer s) (username frame : List ℕ)
        → AreBytes frame
        → IsServer
            (elim (FileProtocol.decode_begin frame) as (λ _. Outcome) [
              | err e ↦
                  reject_malformed os s sender_id
                    (FileProtocol.read_transfer_id frame)
                    malformed_begin
                    malformed_begin
                    true
              | ok begin ↦ route_begin os s sender_id username begin
            ]).1
    decoded {s} v username frame bytes = elim (Result-cases (FileProtocol.decode_begin frame)) [
      | inl (e, h) ↦ rw h (reject_malformed-IsServer v _ _ _ true)
      | inr (begin, h) ↦
          rw h (route_begin-IsServer v username begin (decode_begin-range frame begin bytes h).1)
    ]

    handle_file_begin-IsServer :
        {s : Server} (v : IsServer s) (sender_username frame : List ℕ)
        → AreBytes frame
        → IsServer (handle_file_begin os s sender_id sender_username frame).1
    unfolding handle_file_begin
    handle_file_begin-IsServer {s} v username frame bytes =
        elim (Bool-cases
          (not (get_username_length username) || not (FileProtocol.valid_peer_name username))) [
            | inl e ↦ rw e (notify_sender-IsServer v sender_id _)
            | inr e ↦ rw e (decoded v username frame bytes)
          ]

    handle_file_chunk-IsServer :
        {s : Server} (v : IsServer s) (frame : List ℕ)
        → IsServer (handle_file_chunk os s sender_id frame).1
    unfolding handle_file_chunk
    handle_file_chunk-IsServer {s} v frame = elim (Result-cases (FileProtocol.decode_chunk frame)) [
      | inl (e, h) ↦ rw (handle_file_chunk, h) (reject_malformed-IsServer v _ _ _ true)
      | inr (chunk, h) ↦
          rw (handle_file_chunk, h)
            (after_accept-IsServer v chunk
              (FileRoutes.accept_chunk s.routes sender_id chunk.transfer_id (length chunk.contents))
              (accept_chunk-IsValid v.routes sender_id chunk.transfer_id given
                (length chunk.contents)))
    ]

    handle_file_end-IsServer :
        {s : Server} (v : IsServer s) (frame : List ℕ)
        → IsServer (handle_file_end os s sender_id frame).1
    unfolding handle_file_end
    handle_file_end-IsServer {s} v frame =
        elim (Result-cases (FileProtocol.decode_control frame frame_file_end)) [
          | inl (e, h) ↦ rw (handle_file_end, h) (reject_malformed-IsServer v _ _ _ false)
          | inr (id, h) ↦
              rw (handle_file_end, h)
                (after_end-IsServer v id (FileRoutes.finish s.routes sender_id id true)
                  (finish-IsValid v.routes sender_id id given true))
        ]

    handle_file_error-IsServer :
        {s : Server} (v : IsServer s) (frame : List ℕ)
        → IsServer (handle_file_error os s sender_id frame).1
    unfolding handle_file_error
    handle_file_error-IsServer {s} v frame =
        elim (Result-cases (FileProtocol.decode_control frame frame_file_error)) [
          | inl (e, h) ↦ rw (handle_file_error, h) (reject_malformed-IsServer v _ _ _ false)
          | inr (id, h) ↦
              rw (handle_file_error, h)
                (after_error-IsServer v id (FileRoutes.finish s.routes sender_id id false)
                  (finish-IsValid v.routes sender_id id given false))
        ]

  -- From a server whose two tables are valid, each file frame of bytes, whatever they are, from
  -- whatever sender, and whatever malloc and the wake-ups do, leads to one whose two tables are
  -- valid.
  pub route_file_frame-IsServer :
      {s : Server} (v : IsServer s) (sender_id : ℕ) (sender_username frame : List ℕ)
      → AreBytes frame
      → IsServer (route_file_frame os s sender_id sender_username frame).1
  unfolding route_file_frame
  route_file_frame-IsServer {s} v sender_id username frame bytes =
      elim (Bool-cases (sender_id == invalid_client_id || length frame == 0)) [
        | inl e ↦ rw e v
        | inr e ↦
            let given : sender_id ≢ invalid_client_id = λ z. absurd (ground arith) in
            rw e
              (kept_if (ltb frame_max_size (length frame))
                (keep (notify_sender-IsServer v sender_id _))
                (kept_if (byte frame 0 == frame_file_begin)
                  (keep (handle_file_begin-IsServer sender_id given v username frame bytes))
                  (kept_if (byte frame 0 == frame_file_chunk)
                    (keep (handle_file_chunk-IsServer sender_id given v frame))
                    (kept_if (byte frame 0 == frame_file_end)
                      (keep (handle_file_end-IsServer sender_id given v frame))
                      (kept_if (byte frame 0 == frame_file_error)
                        (keep (handle_file_error-IsServer sender_id given v frame))
                        (keep (notify_sender-IsServer v sender_id _))))))).server
      ]

  carry_out-IsServer :
      (actions : List FileRoutes.FileRouteAbortAction) {s : Server} (v : IsServer s)
      → IsServer (carry_out os s actions)
  unfolding carry_out
  carry_out-IsServer [] v = v
  carry_out-IsServer (FileRoutes.abort_send_error client_id outbound ∷ rest) v =
      carry_out-IsServer rest (receiver_told v _)
  carry_out-IsServer (FileRoutes.abort_notify_sender client_id ∷ rest) v =
      carry_out-IsServer rest (notify_sender-IsServer v client_id _)

  -- From a server whose two tables are valid, cleaning up behind any client leads to one whose two
  -- tables are valid.
  pub abort_file_routes_for_client-IsServer :
      {s : Server} (v : IsServer s) (client_id : ℕ)
      → IsServer (abort_file_routes_for_client os s client_id)
  unfolding abort_file_routes_for_client
  abort_file_routes_for_client-IsServer {s} v client_id =
      elim (Bool-cases (client_id == invalid_client_id)) [
        | inl e ↦ rw e v
        | inr e ↦ rw e (
            carry_out-IsServer (FileRoutes.abort_client s.routes client_id file_route_capacity).0
              (with_routes v (abort_client-IsValid client_id file_route_capacity v.routes)))
      ]
