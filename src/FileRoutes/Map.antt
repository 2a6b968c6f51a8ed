-- ===== src/FileRoutes/Map.antt =====
-- The table of routes seen as a map from transfers to entries. Each operation computes its result from
-- the entry of its transfer alone, by the functions below, and changes no other entry.
use cipher_chat.Prelude.{
  ℕ, ◌+◌, ◌-◌, ◌%◌, ◌≤◌, ◌<◌, ◌≡◌, refl, ap, ◌≢◌, inl, inr, Bool, true, false, not, ◌&&◌, ◌||◌,
  Option, none, some, List, arith, ltb, ◌==◌, if◌then◌else◌, set,
}
use cipher_chat.Prelude.Table.{count}
use cipher_chat.Wire.{u32_mod, u64_mod}
use cipher_chat.FileRoutes.{
  FileRoute, RouteTable, FileRouteEndpoint, FileRouteAddResult, FileRouteChunkResult,
  FileRouteFinishResult, AddOutcome, add_ready, add_discard, add_duplicate, add_full, chunk_ready,
  chunk_discard, chunk_missing, chunk_overrun, finish_ready, finish_discard, finish_missing,
  finish_incomplete, clear_endpoint, copy_endpoint, live_endpoint, zero_route, make_discard_route,
  is_route, find_route, forwards_as, find_free_route, store, allocate_outbound_id, add_forwarding,
  add, add_tombstone, quarantine, accept_at, accept_chunk, mark_forward_failed, finish,
}
use cipher_chat.FileRoutes.Alloc.{allocate_outbound_id_succeeds}
use cipher_chat.FileRoutes.Slots.{
  view, Target, same_transfer, find_route-cases, find_free_route-cases, view-set, view-clear,
}
use cipher_chat.FileRoutes.Invariant.{IsValid, Entries-at, Entries-Fits}

abbrev is_none : Option ℕ → Bool
is_none none = true
is_none (some i) = false

-- No slot is free.
abbrev pub is_full : RouteTable → Bool
is_full t = is_none (find_free_route t.routes)

-- All other entries are as they were.
abbrev pub Others : List FileRoute → List FileRoute → ℕ → ℕ → Type 0
Others rs us s x = (s' x' : ℕ) → same_transfer s x s' x' ≡ false → view us s' x' ≡ view rs s' x'

same_transfer_self : (s x : ℕ) → same_transfer s x s x ≡ true
unfolding same_transfer
same_transfer_self s x = ground arith

is_route-tombstone : (s x : ℕ) → is_route s x (make_discard_route s x) ≡ true
unfolding is_route
is_route-tombstone s x = ground arith

module _ {rs : List FileRoute} {s x i : ℕ} {old : FileRoute} (at : Target rs s x i old) where
  -- A write of an entry of the transfer.
  stored :
      (new : FileRoute)
      → is_route s x new ≡ true
      → (view (set rs i new) s x ≡ some new) × Others rs (set rs i new) s x
  stored new fits = (
    rw (view-set at new fits s x, same_transfer_self s x),
    λ s' x' ne. rw (view-set at new fits s' x', ne),
  )

  stored_tombstone :
      (view (set rs i (make_discard_route s x)) s x ≡ some (make_discard_route s x))
      × Others rs (set rs i (make_discard_route s x)) s x
  stored_tombstone = stored (make_discard_route s x) (is_route-tombstone s x)

  cleared : (view (set rs i zero_route) s x ≡ none) × Others rs (set rs i zero_route) s x
  unfolding is_route
  cleared =
      let law = view-clear at zero_route (λ s' x'. refl) in
      (rw (law s x, same_transfer_self s x), λ s' x' ne. rw (law s' x', ne))

-- `file_routes_accept_chunk`
unfoldable pub chunk_spec :
    Bool
    → ℕ
    → ℕ
    → ℕ
    → Option FileRoute
    → FileRouteChunkResult × FileRouteEndpoint × Option FileRoute
chunk_spec full s x n none =
    (chunk_missing, clear_endpoint, (if full then none else some (make_discard_route s x)))
chunk_spec full s x n (some r) =
    if r.discard
    then (chunk_discard, clear_endpoint, some r)
    else if ltb r.expected_size (r.forwarded_size + n)
    then (chunk_overrun, copy_endpoint r, some (make_discard_route s x))
    else (chunk_ready, copy_endpoint r, some (record r { forwarded_size = r.forwarded_size + n }))

tombstone_view :
    (t : RouteTable) (s x : ℕ)
    → count (is_route s x) t.routes ≡ 0
    → view t.routes s x ≡ none
    → let u = add_tombstone t s x in
      (view u.routes s x ≡ (if is_full t then none else some (make_discard_route s x)))
      × Others t.routes u.routes s x
unfolding add_tombstone
tombstone_view t s x zero_count absent = elim (find_free_route-cases t.routes s x zero_count) [
  | inl (f, _) ↦ rw (f, add_tombstone) (absent, λ s' x' ne. refl)
  | inr (i, r, f, at, free) ↦ rw (f, add_tombstone) (stored_tombstone at)
]

-- The test of the source, in which the subtraction does not wrap.
chunk_test :
    (e f n : ℕ)
    → f ≤ e
    → e < u64_mod
    → (ltb e f || ltb ((u64_mod + e - f) % u64_mod) n) ≡ ltb e (f + n)
chunk_test e f n le lt = ground arith

chunk_sum : (e f n : ℕ) → e < u64_mod → ltb e (f + n) ≡ false → (f + n) % u64_mod ≡ f + n
chunk_sum e f n lt h = ground arith

is_route-grown :
    (s x k : ℕ) (r : FileRoute)
    → is_route s x r ≡ true
    → is_route s x (record r { forwarded_size = k }) ≡ true
unfolding is_route
is_route-grown s x k r h = h

-- The entry that `file_routes_accept_chunk` finds.
accept_at_lem :
    {t : RouteTable} {s x i : ℕ} {r : FileRoute} (n : ℕ)
    → IsValid t
    → Target t.routes s x i r
    → is_route s x r ≡ true
    → view t.routes s x ≡ some r
    → let (result, endpoint, u) = accept_at t i r s x n in
      ((result, endpoint, view u.routes s x) ≡ chunk_spec (is_full t) s x n (some r))
      × Others t.routes u.routes s x
unfolding accept_at chunk_spec
accept_at_lem {t} {s} {x} {i} {r} n v at e here =
    let entry = Entries-at t.routes i r at.at v.entries in
    let grown : FileRoute = record r { forwarded_size = (r.forwarded_size + n) % u64_mod } in
    let dead = stored_tombstone at in
    let more = stored at grown (is_route-grown s x ((r.forwarded_size + n) % u64_mod) r e) in
    (
      ground (
        arith,
        here,
        dead.0,
        more.0,
        chunk_test r.expected_size r.forwarded_size n entry.within entry.size_fits,
        chunk_sum r.expected_size r.forwarded_size n entry.size_fits,
      ),
      λ s' x' ne. ground (arith, dead.1 s' x' ne, more.1 s' x' ne),
    )

-- In a valid table, counting a chunk returns and stores what `chunk_spec` says of the transfer's
-- entry, by comparing the true sum of the bytes with the declared size, and leaves every other
-- transfer as it was.
pub accept_chunk_refines :
    {t : RouteTable} (s x n : ℕ)
    → IsValid t
    → let (result, endpoint, u) = accept_chunk t s x n in
      ((result, endpoint, view u.routes s x) ≡ chunk_spec (is_full t) s x n (view t.routes s x))
      × Others t.routes u.routes s x
unfolding accept_chunk
accept_chunk_refines {t} s x n v = elim (find_route-cases t.routes s x v.keys) [
  | inl (e, zero_count, absent) ↦ missing e absent (tombstone_view t s x zero_count absent)
  | inr (i, r, e, at, fits, here) ↦
      rw (here, e, accept_chunk, at.held) (accept_at_lem n v at fits here)
]
  where
    missing :
        find_route s x t.routes ≡ none
        → view t.routes s x ≡ none
        → let u = add_tombstone t s x in
          (view u.routes s x ≡ (if is_full t then none else some (make_discard_route s x)))
            × Others t.routes u.routes s x
          → let (result, endpoint, u) = accept_chunk t s x n in
            ((result, endpoint, view u.routes s x)
              ≡ chunk_spec (is_full t) s x n (view t.routes s x))
            × Others t.routes u.routes s x
    missing e absent (new, others) =
        rw (absent, e, accept_chunk)
          (unfold chunk_spec in ap (λ o. (chunk_missing, clear_endpoint, o)) new, others)

-- `file_routes_finish`
unfoldable pub finish_spec :
    Bool → Option FileRoute → FileRouteFinishResult × FileRouteEndpoint × Option FileRoute
finish_spec validate none = (finish_missing, clear_endpoint, none)
finish_spec validate (some r) =
    if r.discard
    then (finish_discard, clear_endpoint, none)
    else if validate && not (r.forwarded_size == r.expected_size)
    then (finish_incomplete, copy_endpoint r, none)
    else (finish_ready, copy_endpoint r, none)

-- In a valid table, finishing a transfer removes its entry and no other, and returns what
-- `finish_spec` says of it: the endpoint of a transfer that forwards, and whether a size that
-- counts is not the declared one.
pub finish_refines :
    {t : RouteTable} (s x : ℕ) (validate : Bool)
    → IsValid t
    → let (result, endpoint, u) = finish t s x validate in
      ((result, endpoint, view u.routes s x) ≡ finish_spec validate (view t.routes s x))
      × Others t.routes u.routes s x
unfolding finish finish_spec
finish_refines {t} s x validate v = elim (find_route-cases t.routes s x v.keys) [
  | inl (e, _, absent) ↦ (
    rw (absent, e, finish) (ap (λ o. (finish_missing, clear_endpoint, o)) absent),
    λ s' x' ne. rw (e, finish),
  )
  | inr (i, r, e, at, fits, here) ↦
      rw (here, e, finish, at.held)
        (ground (arith, (cleared at).0), λ s' x' ne. ground (arith, (cleared at).1 s' x' ne))
]

-- `file_routes_quarantine`: whether the entry forwarded, its endpoint, and what takes its place.
pub quarantine_spec :
    Bool → ℕ → ℕ → Bool → Option FileRoute → Bool × FileRouteEndpoint × Option FileRoute
quarantine_spec full s x keep none =
    (false, clear_endpoint, (if keep && not full then some (make_discard_route s x) else none))
quarantine_spec full s x keep (some r) =
    (not r.discard, live_endpoint r, (if keep then some (make_discard_route s x) else none))

-- In a valid table, quarantining a transfer returns and stores what `quarantine_spec` says: it
-- stops the transfer, with a tombstone if one is wanted and there is room, and tells whether it
-- forwarded and where to. Every other transfer is as it was.
pub quarantine_refines :
    {t : RouteTable} (s x : ℕ) (keep : Bool)
    → IsValid t
    → let (was_forwarding, previous, u) = quarantine t s x keep in
      ((was_forwarding, previous, view u.routes s x)
        ≡ quarantine_spec (is_full t) s x keep (view t.routes s x))
      × Others t.routes u.routes s x
unfolding quarantine quarantine_spec
quarantine_refines {t} s x keep v = elim (find_route-cases t.routes s x v.keys) [
  | inl (e, zero_count, absent) ↦
      let (new, others) = tombstone_view t s x zero_count absent in
      (
        rw (absent, e, quarantine) (ground (arith, new, absent)),
        λ s' x' ne. rw (e, quarantine) (ground (arith, others s' x' ne)),
      )
  | inr (i, r, e, at, fits, here) ↦
      rw (here, e, quarantine, at.held)
        (
          ground (arith, (cleared at).0, (stored_tombstone at).0),
          λ s' x' ne. ground (arith, (cleared at).1 s' x' ne, (stored_tombstone at).1 s' x' ne),
        )
]

-- `file_routes_mark_forward_failed`
pub mark_spec : ℕ → ℕ → ℕ → Option FileRoute → Bool × Option FileRoute
mark_spec s x id none = (false, none)
mark_spec s x id (some r) =
    if not r.discard && r.outbound_transfer_id == id
    then (true, some (make_discard_route s x))
    else (false, some r)

-- In a valid table, marking a failure makes a tombstone of the transfer exactly when it still
-- forwards under the id of the failed frame, as `mark_spec` says, and leaves every other transfer
-- as it was.
pub mark_forward_failed_refines :
    {t : RouteTable} (s x id : ℕ)
    → IsValid t
    → let (converted, u) = mark_forward_failed t s x id in
      ((converted, view u.routes s x) ≡ mark_spec s x id (view t.routes s x))
      × Others t.routes u.routes s x
unfolding mark_forward_failed mark_spec
mark_forward_failed_refines {t} s x id v = elim (find_route-cases t.routes s x v.keys) [
  | inl (e, _, absent) ↦ (
    rw (absent, e, mark_forward_failed) (ap (λ o. (false, o)) absent),
    λ s' x' ne. rw (e, mark_forward_failed),
  )
  | inr (i, r, e, at, fits, here) ↦
      rw (e, mark_forward_failed, at.held)
        (
          ground (arith, here, (stored_tombstone at).0),
          λ s' x' ne. ground (arith, (stored_tombstone at).1 s' x' ne),
        )
]

-- `file_routes_add`, with the id that is allocated if a new transfer is to forward.
pub add_spec :
    Bool
    → ℕ
    → ℕ
    → ℕ
    → ℕ
    → Bool
    → ℕ
    → Option FileRoute
    → FileRouteAddResult × FileRouteEndpoint × FileRouteEndpoint × Option FileRoute
add_spec full s x target expected discard id (some r) =
    (add_duplicate, clear_endpoint, live_endpoint r, some (make_discard_route s x))
add_spec true s x target expected discard id none = (add_full, clear_endpoint, clear_endpoint, none)
add_spec false s x target expected true id none =
    (add_discard, clear_endpoint, clear_endpoint, some (make_discard_route s x))
add_spec false s x target expected false id none = (
  add_ready,
  record { target_id = target; outbound_transfer_id = id },
  clear_endpoint,
  some (record zero_route {
    active = true;
    sender_id = s;
    target_id = target;
    source_transfer_id = x;
    outbound_transfer_id = id;
    expected_size = expected;
  }),
)

is_route-new :
    (s x target expected id : ℕ)
    → is_route s x (record zero_route {
      active = true;
      sender_id = s;
      target_id = target;
      source_transfer_id = x;
      outbound_transfer_id = id;
      expected_size = expected;
    })
      ≡ true
unfolding is_route
is_route-new s x target expected id = ground arith

add_forwarding_lem :
    (t : RouteTable) {s x i : ℕ} {old : FileRoute} (target expected : ℕ) (allocated : ℕ × ℕ)
    → Target t.routes s x i old
    → allocated.0 ≢ 0
    → let o = add_forwarding t i s x target expected allocated in
      ((o.result, o.endpoint, o.replaced, view o.table.routes s x)
        ≡ add_spec false s x target expected false allocated.0 none)
      × Others t.routes o.table.routes s x
unfolding add_forwarding add_spec
add_forwarding_lem t {s} {x} target expected (id, next) at ne =
    let new = stored at _ (is_route-new s x target expected id) in
    (ground (arith, new.0), λ s' x' other. ground (arith, new.1 s' x' other))

-- A new transfer in a free slot.
add_at_lem :
    (t : RouteTable) {s x i : ℕ} {old : FileRoute} (target expected : ℕ) (discard : Bool)
    (allocated : ℕ × ℕ)
    → Target t.routes s x i old
    → allocated.0 ≢ 0
    → let o : AddOutcome =
        if discard
        then record {
          result = add_discard;
          endpoint = clear_endpoint;
          replaced = clear_endpoint;
          table = store t i (make_discard_route s x);
        }
        else add_forwarding t i s x target expected allocated in
      ((o.result, o.endpoint, o.replaced, view o.table.routes s x)
        ≡ add_spec false s x target expected discard allocated.0 none)
      × Others t.routes o.table.routes s x
unfolding add_spec
add_at_lem t target expected true allocated at ne =
    let new = stored_tombstone at in
    (ap (λ o. (add_discard, clear_endpoint, clear_endpoint, o)) new.0, new.1)
add_at_lem t target expected false allocated at ne =
    add_forwarding_lem t target expected allocated at ne

-- In a valid table, adding a transfer returns and stores what `add_spec` says, which is never that
-- no id is available, and with an id other than 0 under which no other transfer forwards. Every
-- other transfer is as it was.
pub add_refines :
    {t : RouteTable} (s x target expected : ℕ) (discard : Bool)
    → IsValid t
    → let id = (allocate_outbound_id t.routes t.next_outbound_transfer_id).0 in
      let o = add t s x target expected discard in
      ((o.result, o.endpoint, o.replaced, view o.table.routes s x)
        ≡ add_spec (is_full t) s x target expected discard id (view t.routes s x))
      × Others t.routes o.table.routes s x
      × (id ≢ 0)
      × (count (forwards_as id) t.routes ≡ 0)
unfolding add
add_refines {t} s x target expected discard v = (law.0, law.1, fresh.0, fresh.2)
  where
    allocated : ℕ × ℕ
    allocated = allocate_outbound_id t.routes t.next_outbound_transfer_id

    fresh :
        (allocated.0 ≢ 0)
        × (allocated.0 < u32_mod)
        × (count (forwards_as allocated.0) t.routes ≡ 0)
        × (allocated.1 < u32_mod)
    fresh =
        allocate_outbound_id_succeeds t.routes t.next_outbound_transfer_id (omega (arith, v.slots))
          (Entries-Fits t.routes v.entries) v.counter

    law :
        let o = add t s x target expected discard in
        ((o.result, o.endpoint, o.replaced, view o.table.routes s x)
          ≡ add_spec (is_full t) s x target expected discard allocated.0 (view t.routes s x))
        × Others t.routes o.table.routes s x
    law = elim (find_route-cases t.routes s x v.keys) [
      | inr (i, r, e, at, fits, here) ↦
          let new = stored_tombstone at in
          (
            rw (here, e, add, at.held)
                (unfold add_spec in
                  ap (λ o. (add_duplicate, clear_endpoint, live_endpoint r, o)) new.0),
            rw (e, add) new.1,
          )
      | inl (e, zero_count, absent) ↦ elim (find_free_route-cases t.routes s x zero_count) [
        | inl (f, _) ↦ (
          rw (absent, e, f, add)
              (unfold add_spec in ap (λ o. (add_full, clear_endpoint, clear_endpoint, o)) absent),
          λ s' x' ne. rw (e, f, add),
        )
        | inr (i, r, f, at, free) ↦
            rw (absent, e, f, add) (add_at_lem t target expected discard allocated at fresh.0)
      ]
    ]
