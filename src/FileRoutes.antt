-- ===== src/FileRoutes.antt =====
-- server_file_routes.h and server_file_routes.c: the table of file transfers in progress. The static
-- array and the id counter are the record `RouteTable`; a pointer to a slot is its index; an output
-- endpoint is returned, and is the invalid one where the source only clears it. Each function holds
-- `routes_mutex` from its first read to its last write, so a call is one step.
pub mod Slots
pub mod Alloc
pub mod Invariant
pub mod Preserve
pub mod Map
pub mod History
pub mod Abort
use cipher_chat.Prelude.{
  ℕ, zero, suc, ◌+◌, ◌-◌, ◌%◌, Bool, true, false, not, ◌&&◌, ◌||◌, Option, none, some, List, [],
  ◌∷◌, ltb, ◌==◌, if◌then◌else◌, length, get_or, set, replicate, map,
}
use cipher_chat.Prelude.Table.{find_index, count}
use cipher_chat.Wire.{u32_mod, u64_mod}

abbrev pub file_route_capacity : ℕ
file_route_capacity = 400

abbrev pub invalid_client_id : ℕ
invalid_client_id = 0

pub record FileRoute : Type 0 where
  pub active : Bool
  pub discard : Bool
  pub sender_id : ℕ
  pub target_id : ℕ
  pub source_transfer_id : ℕ
  pub outbound_transfer_id : ℕ
  pub expected_size : ℕ
  pub forwarded_size : ℕ

pub record RouteTable : Type 0 where
  pub routes : List FileRoute
  pub next_outbound_transfer_id : ℕ

pub record FileRouteEndpoint : Type 0 where
  pub target_id : ℕ
  pub outbound_transfer_id : ℕ

pub data FileRouteAddResult : Type 0 where
  add_ready add_discard add_duplicate add_full add_id_unavailable : FileRouteAddResult

pub data FileRouteChunkResult : Type 0 where
  chunk_ready chunk_discard chunk_missing chunk_overrun : FileRouteChunkResult

pub data FileRouteFinishResult : Type 0 where
  finish_ready finish_discard finish_missing finish_incomplete : FileRouteFinishResult

-- The type of an action is its constructor: the client to tell, and the outbound id or 0.
pub data FileRouteAbortAction : Type 0 where
  abort_send_error : ℕ → ℕ → FileRouteAbortAction
  abort_notify_sender : ℕ → FileRouteAbortAction

-- `clear_endpoint`
abbrev pub clear_endpoint : FileRouteEndpoint
clear_endpoint = record { target_id = invalid_client_id; outbound_transfer_id = 0 }

abbrev pub copy_endpoint : FileRoute → FileRouteEndpoint
copy_endpoint r = record { target_id = r.target_id; outbound_transfer_id = r.outbound_transfer_id }

-- `memset(route, 0, sizeof(*route))`
abbrev pub zero_route : FileRoute
zero_route = record {
  active = false;
  discard = false;
  sender_id = 0;
  target_id = 0;
  source_transfer_id = 0;
  outbound_transfer_id = 0;
  expected_size = 0;
  forwarded_size = 0;
}

abbrev pub make_discard_route : ℕ → ℕ → FileRoute
make_discard_route sender_id source_transfer_id = record zero_route {
  active = true;
  discard = true;
  sender_id = sender_id;
  target_id = invalid_client_id;
  source_transfer_id = source_transfer_id;
}

-- `file_routes_init`
unfoldable pub init : RouteTable
init = record { routes = replicate file_route_capacity zero_route; next_outbound_transfer_id = 1 }

unfoldable pub is_route : ℕ → ℕ → FileRoute → Bool
is_route sender_id source_transfer_id r =
    r.active && (r.sender_id == sender_id && r.source_transfer_id == source_transfer_id)

unfoldable pub find_route : ℕ → ℕ → List FileRoute → Option ℕ
find_route sender_id source_transfer_id = find_index (is_route sender_id source_transfer_id)

unfoldable pub is_free : FileRoute → Bool
is_free r = not r.active

unfoldable pub find_free_route : List FileRoute → Option ℕ
find_free_route = find_index is_free

abbrev pub slot : List FileRoute → ℕ → FileRoute
slot routes i = get_or routes i zero_route

unfoldable pub forwards_as : ℕ → FileRoute → Bool
forwards_as candidate r = r.active && (not r.discard && r.outbound_transfer_id == candidate)

-- The inner loop of `allocate_outbound_id_locked`.
unfoldable pub in_use : ℕ → List FileRoute → Bool
in_use candidate [] = false
in_use candidate (r ∷ rs) = if forwards_as candidate r then true else in_use candidate rs

abbrev pub next_id : ℕ → ℕ
next_id n = (n + 1) % u32_mod

-- The loop of `allocate_outbound_id_locked` with its attempts left: the id, 0 if there is none, and
-- the counter.
unfoldable pub allocate : ℕ → List FileRoute → ℕ → ℕ × ℕ
allocate zero routes next = (0, next)
allocate (suc attempts) routes next =
    let candidate = if next == 0 then next_id next else next in
    let next' = next_id candidate in
    let again = allocate attempts routes next' in
    if in_use candidate routes then again else (candidate, next')

unfoldable pub allocate_outbound_id : List FileRoute → ℕ → ℕ × ℕ
unfolding allocate
allocate_outbound_id = allocate (file_route_capacity + 1)

-- `table.routes[i] = r`
abbrev pub store : RouteTable → ℕ → FileRoute → RouteTable
store t i r = record t { routes = set t.routes i r }

pub record AddOutcome : Type 0 where
  pub result : FileRouteAddResult
  pub endpoint : FileRouteEndpoint
  pub replaced : FileRouteEndpoint
  pub table : RouteTable

abbrev pub live_endpoint : FileRoute → FileRouteEndpoint
live_endpoint r = if r.discard then clear_endpoint else copy_endpoint r

-- The end of `file_routes_add`: the id and the counter are those that the allocation gave.
unfoldable pub add_forwarding : RouteTable → ℕ → ℕ → ℕ → ℕ → ℕ → ℕ × ℕ → AddOutcome
add_forwarding t i sender_id source_transfer_id target_id expected_size (id, next) =
    let r : FileRoute = record zero_route {
      active = true;
      sender_id = sender_id;
      target_id = target_id;
      source_transfer_id = source_transfer_id;
      outbound_transfer_id = id;
      expected_size = expected_size;
    } in
    if id == 0
    then record {
      result = add_id_unavailable;
      endpoint = clear_endpoint;
      replaced = clear_endpoint;
      table = record t { next_outbound_transfer_id = next };
    }
    else record {
      result = add_ready;
      endpoint = copy_endpoint r;
      replaced = clear_endpoint;
      table = record { routes = set t.routes i r; next_outbound_transfer_id = next };
    }

unfoldable pub add : RouteTable → ℕ → ℕ → ℕ → ℕ → Bool → AddOutcome
unfolding find_route find_free_route add_forwarding
add t sender_id source_transfer_id target_id expected_size discard =
    elim (find_route sender_id source_transfer_id t.routes) [
      | some i ↦ record {
        result = add_duplicate;
        endpoint = clear_endpoint;
        replaced = live_endpoint (slot t.routes i);
        table = store t i (make_discard_route sender_id source_transfer_id);
      }
      | none ↦ elim (find_free_route t.routes) [
        | none ↦ record {
          result = add_full;
          endpoint = clear_endpoint;
          replaced = clear_endpoint;
          table = t;
        }
        | some i ↦
            if discard
            then record {
              result = add_discard;
              endpoint = clear_endpoint;
              replaced = clear_endpoint;
              table = store t i (make_discard_route sender_id source_transfer_id);
            }
            else add_forwarding t i sender_id source_transfer_id target_id expected_size
                (allocate_outbound_id t.routes t.next_outbound_transfer_id)
      ]
    ]

-- A tombstone in a free slot, where there is one.
unfoldable pub add_tombstone : RouteTable → ℕ → ℕ → RouteTable
unfolding find_free_route
add_tombstone t sender_id source_transfer_id = elim (find_free_route t.routes) [
  | none ↦ t
  | some i ↦ store t i (make_discard_route sender_id source_transfer_id)
]

-- Whether the old entry forwarded, its endpoint, and the table.
unfoldable pub quarantine : RouteTable → ℕ → ℕ → Bool → Bool × FileRouteEndpoint × RouteTable
unfolding find_route add_tombstone
quarantine t sender_id source_transfer_id keep_discard =
    elim (find_route sender_id source_transfer_id t.routes) [
      | some i ↦ (
        not (slot t.routes i).discard,
        live_endpoint (slot t.routes i),
        store t i
            (if keep_discard then make_discard_route sender_id source_transfer_id else zero_route),
      )
      | none ↦ (
        false,
        clear_endpoint,
        (if keep_discard then add_tombstone t sender_id source_transfer_id else t),
      )
    ]

abbrev pub ChunkOutcome : Type 0
ChunkOutcome = FileRouteChunkResult × FileRouteEndpoint × RouteTable

-- What `file_routes_accept_chunk` does to the entry it finds.
unfoldable pub accept_at : RouteTable → ℕ → FileRoute → ℕ → ℕ → ℕ → ChunkOutcome
accept_at t i r sender_id source_transfer_id chunk_length =
    if r.discard
    then (chunk_discard, clear_endpoint, t)
    else if ltb r.expected_size r.forwarded_size
        || ltb ((u64_mod + r.expected_size - r.forwarded_size) % u64_mod) chunk_length
    then (
      chunk_overrun,
      copy_endpoint r,
      store t i (make_discard_route sender_id source_transfer_id),
    )
    else (
      chunk_ready,
      copy_endpoint r,
      store t i (record r { forwarded_size = (r.forwarded_size + chunk_length) % u64_mod }),
    )

unfoldable pub accept_chunk : RouteTable → ℕ → ℕ → ℕ → ChunkOutcome
unfolding find_route add_tombstone accept_at
accept_chunk t sender_id source_transfer_id chunk_length =
    elim (find_route sender_id source_transfer_id t.routes) [
      | none ↦ (chunk_missing, clear_endpoint, add_tombstone t sender_id source_transfer_id)
      | some i ↦ accept_at t i (slot t.routes i) sender_id source_transfer_id chunk_length
    ]

unfoldable pub mark_forward_failed : RouteTable → ℕ → ℕ → ℕ → Bool × RouteTable
unfolding find_route
mark_forward_failed t sender_id source_transfer_id outbound_transfer_id =
    elim (find_route sender_id source_transfer_id t.routes) [
      | none ↦ (false, t)
      | some i ↦
          if not (slot t.routes i).discard
            && (slot t.routes i).outbound_transfer_id == outbound_transfer_id
          then (true, store t i (make_discard_route sender_id source_transfer_id))
          else (false, t)
    ]

abbrev pub FinishOutcome : Type 0
FinishOutcome = FileRouteFinishResult × FileRouteEndpoint × RouteTable

unfoldable pub finish : RouteTable → ℕ → ℕ → Bool → FinishOutcome
unfolding find_route
finish t sender_id source_transfer_id validate_size =
    elim (find_route sender_id source_transfer_id t.routes) [
      | none ↦ (finish_missing, clear_endpoint, t)
      | some i ↦
          let r = slot t.routes i in
          if r.discard then (finish_discard, clear_endpoint, store t i zero_route) else (
            (if validate_size && not (r.forwarded_size == r.expected_size)
                then finish_incomplete
                else finish_ready),
            copy_endpoint r,
            store t i zero_route,
          )
    ]

-- The body of the loop of `file_routes_abort_client` at one entry: the action, if any, and what the
-- slot holds then.
unfoldable pub abort_entry : ℕ → FileRoute → Option FileRouteAbortAction × FileRoute
abort_entry client_id r =
    if not r.active || (not (r.sender_id == client_id) && not (r.target_id == client_id))
    then (none, r)
    else if not r.discard
        && r.sender_id == client_id
        && not (r.target_id == invalid_client_id)
        && not (r.target_id == client_id)
    then (some (abort_send_error r.target_id r.outbound_transfer_id), zero_route)
    else if not r.discard
        && r.target_id == client_id
        && not (r.sender_id == invalid_client_id)
        && not (r.sender_id == client_id)
    then (
      some (abort_notify_sender r.sender_id),
      make_discard_route r.sender_id r.source_transfer_id,
    )
    else (none, zero_route)

-- `action_count < action_capacity` guards each action; `room` is the difference.
unfoldable pub abort_actions : ℕ → ℕ → List FileRoute → List FileRouteAbortAction
unfolding abort_entry
abort_actions client_id room [] = []
abort_actions client_id zero (r ∷ rs) = []
abort_actions client_id (suc room) (r ∷ rs) = elim (abort_entry client_id r).0 [
  | none ↦ abort_actions client_id (suc room) rs
  | some a ↦ a ∷ abort_actions client_id room rs
]

unfoldable pub abort_routes : ℕ → List FileRoute → List FileRoute
unfolding abort_entry
abort_routes client_id [] = []
abort_routes client_id (r ∷ rs) = (abort_entry client_id r).1 ∷ abort_routes client_id rs

unfoldable pub abort_client : RouteTable → ℕ → ℕ → List FileRouteAbortAction × RouteTable
unfolding abort_actions abort_routes
abort_client t client_id action_capacity = if client_id == invalid_client_id then ([], t) else (
  abort_actions client_id action_capacity t.routes,
  record t { routes = abort_routes client_id t.routes },
)
