-- ===== src/Tests.antt =====
-- The theorems applied at concrete inputs.
mod Frames
mod Servers
mod Workers
mod Clients
use cipher_chat.Prelude.{
  ℕ, ◌+◌, ◌-◌, ◌%◌, ◌≤◌, ◌<◌, ◌≡◌, refl, ◌≢◌, ◌⊎◌, true, false, none, some, List, [], ◌∷◌, ◌++◌,
  arith, if◌then◌else◌, ◌==◌,
}
use cipher_chat.Prelude.Table.{count, find, find_index}
use cipher_chat.Wire.{u32_mod}
use cipher_chat.FileRoutes.{
  FileRoute, RouteTable, init, is_route, is_free, in_use, add, accept_chunk, finish, quarantine,
  mark_forward_failed, abort_client, allocate_outbound_id, forwards_as, copy_endpoint, finish_ready,
  finish_incomplete,
}
use cipher_chat.FileRoutes.Slots.{view}
use cipher_chat.FileRoutes.Invariant.{init-IsValid}
use cipher_chat.FileRoutes.Invariant as RoutesInvariant
use cipher_chat.FileRoutes.Preserve.{add-IsValid}
use cipher_chat.FileRoutes.Alloc.{allocate_outbound_id_succeeds}
use cipher_chat.FileRoutes.Map.{
  Others, is_full, chunk_spec, finish_spec, quarantine_spec, mark_spec, add_spec,
  accept_chunk_refines, finish_refines, quarantine_refines, mark_forward_failed_refines,
  add_refines,
}
use cipher_chat.FileRoutes.Abort.{departed, view-abort_client}
use cipher_chat.FileRoutes.History.{
  started, stepped, call_add, call_accept_chunk, Reachable-IsValid, accept_chunks, sum,
  finish-accept_chunks,
}

-- Client 1 sends a file of 100 bytes to client 2 as its transfer 7.
abbrev one_route : RouteTable
one_route = (add init 1 7 2 100 false).table

one_route-IsValid : RoutesInvariant.IsValid one_route
one_route-IsValid =
    add-IsValid init-IsValid 1 7 2 100 (ground arith) (omega arith) false (λ _. ground arith)

accept_chunk_refines_example :
    let (result, endpoint, u) = accept_chunk one_route 1 7 40 in
    ((result, endpoint, view u.routes 1 7)
      ≡ chunk_spec (is_full one_route) 1 7 40 (view one_route.routes 1 7))
    × Others one_route.routes u.routes 1 7
accept_chunk_refines_example = accept_chunk_refines 1 7 40 one_route-IsValid

finish_refines_example :
    let (result, endpoint, u) = finish one_route 1 7 true in
    ((result, endpoint, view u.routes 1 7) ≡ finish_spec true (view one_route.routes 1 7))
    × Others one_route.routes u.routes 1 7
finish_refines_example = finish_refines 1 7 true one_route-IsValid

quarantine_refines_example :
    let (was_forwarding, previous, u) = quarantine one_route 1 7 true in
    ((was_forwarding, previous, view u.routes 1 7)
      ≡ quarantine_spec (is_full one_route) 1 7 true (view one_route.routes 1 7))
    × Others one_route.routes u.routes 1 7
quarantine_refines_example = quarantine_refines 1 7 true one_route-IsValid

mark_forward_failed_refines_example :
    let (converted, u) = mark_forward_failed one_route 1 7 1 in
    ((converted, view u.routes 1 7) ≡ mark_spec 1 7 1 (view one_route.routes 1 7))
    × Others one_route.routes u.routes 1 7
mark_forward_failed_refines_example = mark_forward_failed_refines 1 7 1 one_route-IsValid

add_refines_example :
    let id = (allocate_outbound_id one_route.routes one_route.next_outbound_transfer_id).0 in
    let o = add one_route 3 9 2 50 false in
    ((o.result, o.endpoint, o.replaced, view o.table.routes 3 9)
      ≡ add_spec (is_full one_route) 3 9 2 50 false id (view one_route.routes 3 9))
    × Others one_route.routes o.table.routes 3 9
    × (id ≢ 0)
    × (count (forwards_as id) one_route.routes ≡ 0)
add_refines_example = add_refines 3 9 2 50 false one_route-IsValid

view-abort_client_example :
    view (abort_client one_route 2 400).1.routes 1 7 ≡ departed 2 (view one_route.routes 1 7)
view-abort_client_example = view-abort_client 2 1 7 400 (ground arith) one_route-IsValid

allocate_outbound_id_succeeds_example :
    let (id, next') = allocate_outbound_id one_route.routes 1 in
    (id ≢ 0) × (id < u32_mod) × (count (forwards_as id) one_route.routes ≡ 0) × (next' < u32_mod)
allocate_outbound_id_succeeds_example =
    allocate_outbound_id_succeeds one_route.routes 1 (omega (arith, one_route-IsValid.slots))
      (RoutesInvariant.Entries-Fits one_route.routes one_route-IsValid.entries) (omega arith)

Reachable-IsValid_example : RoutesInvariant.IsValid (accept_chunk one_route 1 7 40).2
Reachable-IsValid_example = Reachable-IsValid (
    stepped
      (stepped started (call_add 1 7 2 100 false (ground arith) (omega arith) (λ _. ground arith)))
      (call_accept_chunk 1 7 40 (ground arith)))

abbrev forwarding : FileRoute
forwarding = record {
  active = true;
  discard = false;
  sender_id = 1;
  target_id = 2;
  source_transfer_id = 7;
  outbound_transfer_id = 1;
  expected_size = 100;
  forwarded_size = 0;
}

abbrev two_chunks : List ℕ
two_chunks = 60 ∷ 40 ∷ []

one_route-view : view one_route.routes 1 7 ≡ some forwarding
unfolding add find find_index init is_route is_free allocate_outbound_id in_use forwards_as
one_route-view = refl

finish-accept_chunks_example :
    let (result, endpoint, u) = finish (accept_chunks one_route 1 7 two_chunks) 1 7 true in
    (result ≡ (
      if forwarding.forwarded_size + sum two_chunks == forwarding.expected_size
      then finish_ready
      else finish_incomplete))
    × (endpoint ≡ copy_endpoint forwarding)
    × (view u.routes 1 7 ≡ none)
finish-accept_chunks_example =
    finish-accept_chunks 1 7 two_chunks (ground arith) one_route-IsValid one_route-view refl
      (omega arith)
