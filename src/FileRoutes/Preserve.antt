-- ===== src/FileRoutes/Preserve.antt =====
-- Each operation of the table of routes keeps what `Invariant` says. A sender id is that of a client
-- that has logged in, so it is not 0.
use cipher_chat.Prelude.{
  ℕ, ◌+◌, ◌-◌, ◌%◌, ◌≤◌, ◌<◌, ◌≡◌, refl, sym, ap, ◌∙◌, ◌≢◌, inl, inr, Bool, true, false, List,
  arith, if◌then◌else◌,
}
use native.Mathlib.Decide.{ℕ_discrete}
use cipher_chat.Prelude.Table.{bit, bit-le, count}
use cipher_chat.Wire.{u32_mod, u64_mod}
use cipher_chat.FileRoutes.{
  FileRoute, RouteTable, invalid_client_id, zero_route, make_discard_route, is_route, is_free,
  forwards_as, add_discard, clear_endpoint, allocate_outbound_id, store, add_forwarding, add,
  add_tombstone, quarantine, accept_at, accept_chunk, mark_forward_failed, finish,
}
use cipher_chat.FileRoutes.Alloc.{allocate_outbound_id_succeeds}
use cipher_chat.FileRoutes.Slots.{Target, same_transfer, find_route-cases, find_free_route-cases}
use cipher_chat.FileRoutes.Invariant.{
  IsEntry, IsValid, Entries-Fits, Entries-at, put-IsValid, tombstone-IsValid, clear-IsValid,
}

module _ {t : RouteTable} (v : IsValid t) (s x : ℕ) (given : s ≢ invalid_client_id) where
  pub add_tombstone-IsValid : count (is_route s x) t.routes ≡ 0 → IsValid (add_tombstone t s x)
  unfolding add_tombstone
  add_tombstone-IsValid absent = elim (find_free_route-cases t.routes s x absent) [
    | inl (e, _) ↦ rw (e, add_tombstone) v
    | inr (i, r, e, at, _) ↦ rw (e, add_tombstone) (tombstone-IsValid v at given)
  ]

  pub quarantine-IsValid : (keep : Bool) → IsValid (quarantine t s x keep).2
  unfolding quarantine
  quarantine-IsValid keep = elim (find_route-cases t.routes s x v.keys) [
    | inl (e, absent, _) ↦ rw (e, quarantine) (ground (arith, add_tombstone-IsValid absent, v))
    | inr (i, r, e, at, _, _) ↦
        rw (e, quarantine) (ground (arith, tombstone-IsValid v at given, clear-IsValid v at))
  ]

  -- A chunk that fits: the sum does not wrap, and stays within the declared size.
  count_chunk :
      {i : ℕ} {r : FileRoute}
      → Target t.routes s x i r
      → (n : ℕ) → is_route s x r ≡ true
      → r.forwarded_size ≤ r.expected_size
      → r.expected_size < u64_mod
      → n ≤ (u64_mod + r.expected_size - r.forwarded_size) % u64_mod
      → IsValid (store t i (record r { forwarded_size = (r.forwarded_size + n) % u64_mod }))
  unfolding is_route forwards_as
  count_chunk {i} {r} at n e within big fits =
      let entry = Entries-at t.routes i r at.at v.entries in
      put-IsValid v at (record r { forwarded_size = (r.forwarded_size + n) % u64_mod })
        t.next_outbound_transfer_id v.counter
        (record {
          id_fits = entry.id_fits;
          within = omega arith;
          size_fits = big;
          id_given = entry.id_given;
          no_target = entry.no_target;
          has_sender = entry.has_sender;
          apart = entry.apart;
        })
        at.others (λ c. omega (arith, v.ids c))

  accept_at-IsValid :
      {i : ℕ} {r : FileRoute} (n : ℕ)
      → Target t.routes s x i r
      → is_route s x r ≡ true
      → IsValid (accept_at t i r s x n).2
  unfolding accept_at
  accept_at-IsValid {i} {r} n at e =
      let h = Entries-at t.routes i r at.at v.entries in
      ground (arith, tombstone-IsValid v at given, v, count_chunk at n e h.within h.size_fits)

  pub accept_chunk-IsValid : (n : ℕ) → IsValid (accept_chunk t s x n).2
  unfolding accept_chunk
  accept_chunk-IsValid n = elim (find_route-cases t.routes s x v.keys) [
    | inl (e, absent, _) ↦ rw (e, accept_chunk) (add_tombstone-IsValid absent)
    | inr (i, r, e, at, fits, _) ↦ rw (e, accept_chunk, at.held) (accept_at-IsValid n at fits)
  ]

  pub mark_forward_failed-IsValid : (id : ℕ) → IsValid (mark_forward_failed t s x id).1
  unfolding mark_forward_failed
  mark_forward_failed-IsValid id = elim (find_route-cases t.routes s x v.keys) [
    | inl (e, absent, _) ↦ rw (e, mark_forward_failed) v
    | inr (i, r, e, at, _, _) ↦
        rw (e, mark_forward_failed) (ground (arith, tombstone-IsValid v at given, v))
  ]

  pub finish-IsValid : (validate : Bool) → IsValid (finish t s x validate).2
  unfolding finish
  finish-IsValid validate = elim (find_route-cases t.routes s x v.keys) [
    | inl (e, absent, _) ↦ rw (e, finish) v
    | inr (i, r, e, at, _, _) ↦ rw (e, finish) (ground (arith, clear-IsValid v at))
  ]

forwards_as-ne : (c : ℕ) (r : FileRoute) → r.outbound_transfer_id ≢ c → forwards_as c r ≡ false
unfolding forwards_as
forwards_as-ne c r ne = ground arith

-- No slot forwards under an id that is in no use but the one that takes it.
fresh_id :
    (rs : List FileRoute) (id : ℕ) (new old : FileRoute)
    → count (forwards_as id) rs ≡ 0
    → ((c : ℕ) → count (forwards_as c) rs ≤ 1)
    → is_free old ≡ true
    → new.outbound_transfer_id ≡ id
    → (c : ℕ) → count (forwards_as c) rs + bit (forwards_as c new) ≤ 1 + bit (forwards_as c old)
fresh_id rs id new old none_yet unique free e c = elim (ℕ_discrete id c) [
  | yes same ↦ rw (← same) (omega (arith, none_yet, bit-le (forwards_as id new)))
  | no other ↦ omega (arith, unique c, ap bit (forwards_as-ne c new (λ f. other (sym e ∙ f))))
]

new_route : ℕ → ℕ → ℕ → ℕ → ℕ → FileRoute
new_route s x target expected id = record zero_route {
  active = true;
  sender_id = s;
  target_id = target;
  source_transfer_id = x;
  outbound_transfer_id = id;
  expected_size = expected;
}

new_route-IsEntry :
    (s x target expected id : ℕ)
    → s ≢ invalid_client_id
    → s ≢ target
    → expected < u64_mod
    → id < u32_mod
    → id ≢ 0
    → IsEntry (new_route s x target expected id)
unfolding new_route forwards_as
new_route-IsEntry s x target expected id given other big small ne = ground arith

module _ {t : RouteTable} (v : IsValid t) (s x target expected : ℕ) (given : s ≢ invalid_client_id)
    (big : expected < u64_mod) where
  add_forwarding-IsValid :
      {i : ℕ} {r : FileRoute} (allocated : ℕ × ℕ)
      → s ≢ target
      → is_free r ≡ true
      → Target t.routes s x i r
      → (allocated.0 ≢ 0)
        × (allocated.0 < u32_mod)
        × (count (forwards_as allocated.0) t.routes ≡ 0)
        × (allocated.1 < u32_mod)
      → IsValid (add_forwarding t i s x target expected allocated).table
  unfolding add_forwarding is_route same_transfer forwards_as new_route
  add_forwarding-IsValid {i} {r} (id, next) other free at fresh = ground (
    arith,
    put-IsValid v at (new_route s x target expected id) next fresh.3
        (new_route-IsEntry s x target expected id given other big fresh.1 fresh.0) (λ s' x' ne. ne)
        (fresh_id t.routes id (new_route s x target expected id) r fresh.2 v.ids free refl),
  )

  add_at-IsValid :
      {i : ℕ} {r : FileRoute} (discard : Bool)
      → (discard ≡ false → s ≢ target)
      → is_free r ≡ true
      → Target t.routes s x i r
      → IsValid
          (if discard
            then record {
              result = add_discard;
              endpoint = clear_endpoint;
              replaced = clear_endpoint;
              table = store t i (make_discard_route s x);
            }
            else add_forwarding t i s x target expected
                (allocate_outbound_id t.routes t.next_outbound_transfer_id)).table
  add_at-IsValid true other free at = tombstone-IsValid v at given
  add_at-IsValid false other free at =
      add_forwarding-IsValid (allocate_outbound_id t.routes t.next_outbound_transfer_id)
        (other refl) free at
        (allocate_outbound_id_succeeds t.routes t.next_outbound_transfer_id (omega (arith, v.slots))
          (Entries-Fits t.routes v.entries) v.counter)

  pub add-IsValid :
      (discard : Bool)
      → (discard ≡ false → s ≢ target)
      → IsValid (add t s x target expected discard).table
  unfolding add
  add-IsValid discard other = elim (find_route-cases t.routes s x v.keys) [
    | inr (i, r, e, at, _, _) ↦ rw (e, add) (tombstone-IsValid v at given)
    | inl (e, absent, _) ↦ elim (find_free_route-cases t.routes s x absent) [
      | inl (f, _) ↦ rw (e, f, add) v
      | inr (i, r, f, at, free) ↦ rw (e, f, add) (add_at-IsValid discard other free at)
    ]
  ]
