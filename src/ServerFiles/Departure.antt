-- ===== src/ServerFiles/Departure.antt =====
-- Whom the server tells what when a client leaves.
use cipher_chat.Prelude.{
  ℕ, zero, suc, ◌≤◌, ◌≡◌, refl, sym, subst, ap, ◌∙◌, ◌≢◌, inl, inr, false, not, ◌&&◌, Option, none,
  some, List, [], ◌∷◌, arith, ◌==◌, if◌then◌else◌, length, Option-cases,
}
use cipher_chat.Wire.{frame_file_error, frame_text, write_u32}
use cipher_chat.Registry
use cipher_chat.Registry.{Os, Registry, queue_frame, send_text}
use cipher_chat.FileProtocol
use cipher_chat.FileRoutes
use cipher_chat.FileRoutes.{
  FileRoute, FileRouteAbortAction, abort_send_error, abort_notify_sender, abort_entry,
  abort_actions, abort_routes, file_route_capacity, invalid_client_id,
}
use cipher_chat.FileRoutes.Invariant.{IsEntry, Entries}
use cipher_chat.FileRoutes.Slots.{view}
use cipher_chat.FileRoutes.Abort.{departed, view-abort_client}
use cipher_chat.ServerFiles.{
  Server, recipient_disconnected, text, notify_sender, send_control, send_receiver_error, carry_out,
  abort_file_routes_for_client,
}
use cipher_chat.ServerFiles.Invariant.{IsServer, abort_file_routes_for_client-IsServer}

-- A frame for a client: its id, and the type and the payload.
abbrev pub Notice : Type 0
Notice = ℕ × ℕ × List ℕ

-- What a forwarding transfer makes the server send when `c` leaves: an error frame with the outbound id to the
-- recipient of what `c` sends, a text to the sender of what `c` receives.
unfoldable pub notice : ℕ → FileRoute → Option Notice
notice c r =
    if r.active && not r.discard
    then (if r.sender_id == c
        then (if r.target_id == invalid_client_id
            then none
            else some (r.target_id, frame_file_error, write_u32 r.outbound_transfer_id))
        else if r.target_id == c
        then some (r.sender_id, frame_text, text recipient_disconnected)
        else none)
    else none

-- Those of a table, in the order of its slots.
unfoldable pub notices : ℕ → List FileRoute → List Notice
notices c [] = []
notices c (r ∷ rs) =
    let rest = notices c rs in elim (notice c r) [ none ↦ rest | some n ↦ n ∷ rest ]

unfoldable pub tell : Os → Registry → List Notice → Registry
tell os r [] = r
tell os r ((id, type, payload) ∷ ns) = tell os (queue_frame os r id type payload).1 ns

-- The frame that an action asks for.
abbrev frame_of : FileRouteAbortAction → Notice
frame_of (abort_send_error id outbound) = (id, frame_file_error, write_u32 outbound)
frame_of (abort_notify_sender id) = (id, frame_text, text recipient_disconnected)

-- No action is for the id 0, which is no client.
abbrev HasTarget : FileRouteAbortAction → Type 0
HasTarget (abort_send_error id outbound) = id ≢ invalid_client_id
HasTarget (abort_notify_sender id) = id ≢ invalid_client_id

abbrev Agree : Option FileRouteAbortAction → Option Notice → Type 0
Agree none n = n ≡ none
Agree (some a) n = (n ≡ some (frame_of a)) × HasTarget a

abort_entry-notice :
    (c : ℕ) (r : FileRoute)
    → c ≢ invalid_client_id
    → IsEntry r
    → Agree (abort_entry c r).0 (notice c r)
unfolding abort_entry notice
abort_entry-notice c r ne e = ground (arith, e.apart, e.has_sender)

module _ (os : Os) where
  abbrev queued : Server → Notice → Server
  queued s n = record s { registry = (queue_frame os s.registry n.0 n.1 n.2).1 }

  carried :
      (s : Server) (a : FileRouteAbortAction) (rest : List FileRouteAbortAction)
      → HasTarget a
      → carry_out os s (a ∷ rest) ≡ carry_out os (queued s (frame_of a)) rest
  unfolding carry_out send_receiver_error notify_sender send_control FileProtocol.encode_control
      send_text Registry.send_frame text
  carried s (abort_send_error id outbound) rest given =
      let known : (id == invalid_client_id) ≡ false = ground arith in rw known refl
  carried s (abort_notify_sender id) rest given =
      let known : (id == invalid_client_id) ≡ false = ground arith in rw known refl

  carry_out-tell :
      (c room : ℕ) (rs : List FileRoute) (s : Server)
      → c ≢ invalid_client_id
      → length rs ≤ room
      → Entries rs
      → carry_out os s (abort_actions c room rs)
        ≡ record s { registry = tell os s.registry (notices c rs) }
  unfolding carry_out abort_actions notices tell
  carry_out-tell c room [] s ne enough h = refl
  carry_out-tell c zero (r ∷ rs) s ne enough h = elim enough [ ]
  carry_out-tell c (suc room) (r ∷ rs) s ne enough h = elim (Option-cases (abort_entry c r).0) [
    | inl quiet ↦
        let same = subst (λ o. Agree o (notice c r)) quiet (abort_entry-notice c r ne h.0) in
        rw (abort_actions, notices, quiet, same)
          (carry_out-tell c (suc room) rs s ne (omega arith) h.1)
    | inr (a, acts) ↦
        let (same, given) =
          subst (λ o. Agree o (notice c r)) acts (abort_entry-notice c r ne h.0) in
        rw (abort_actions, notices, acts, same)
          (carried s a (abort_actions c room rs) given
            ∙ carry_out-tell c room rs (queued s (frame_of a)) ne (omega arith) h.1)
  ]

  -- From a server whose two tables are valid, when a client with an id other than 0 leaves: the tables stay valid;
  -- every transfer that it sends is forgotten, every one that it receives becomes a tombstone of its sender, and
  -- every other one stays; and what happens to the clients is that, in the order of the slots, the recipient of
  -- each transfer that it sends is sent an error frame with the outbound id, and the sender of each that it
  -- receives a text, and nothing else.
  pub abort_file_routes_for_client-Departed :
      {s : Server} (client_id : ℕ)
      → client_id ≢ invalid_client_id
      → IsServer s
      → let after = abort_file_routes_for_client os s client_id in
        IsServer after
        × ((a x : ℕ) → view after.routes.routes a x ≡ departed client_id (view s.routes.routes a x))
        × (after.registry ≡ tell os s.registry (notices client_id s.routes.routes))
  unfolding abort_file_routes_for_client FileRoutes.abort_client
  abort_file_routes_for_client-Departed {s} c ne v =
      let known : (c == invalid_client_id) ≡ false = ground arith in
      let table : FileRoutes.RouteTable = record s.routes {
        routes = abort_routes c s.routes.routes;
      } in
      let whole : abort_file_routes_for_client os s c
          ≡ record s { routes = table; registry = tell os s.registry (notices c s.routes.routes) } =
        rw known (
          carry_out-tell c file_route_capacity s.routes.routes (record s { routes = table }) ne
            (omega (arith, v.routes.slots)) v.routes.entries) in
      (
        abort_file_routes_for_client-IsServer os v c,
        λ a x.
            ap (λ e. view e.routes.routes a x) whole
            ∙ (ap (λ (t : FileRoutes.RouteTable). view t.routes a x) (sym left)
                ∙ view-abort_client c a x file_route_capacity ne v.routes),
        ap (λ e. e.registry) whole,
      )
    where
      left :
          (FileRoutes.abort_client s.routes c file_route_capacity).1
          ≡ record s.routes { routes = abort_routes c s.routes.routes }
      left = ground arith
