-- ===== src/FileRoutes/Abort.antt =====
-- `file_routes_abort_client`: what a client that leaves takes with it.
use cipher_chat.Prelude.{
  ℕ, suc, ◌≤◌, ◌≡◌, refl, ap, ◌≢◌, inl, inr, true, false, not, ◌&&◌, Option, none, some, List, [],
  ◌∷◌, arith, ◌==◌, if◌then◌else◌, length, Bool-cases,
}
use cipher_chat.Prelude.Table.{bit, count, find, count_zero-find}
use cipher_chat.FileRoutes.{
  FileRoute, RouteTable, invalid_client_id, make_discard_route, is_route, forwards_as, abort_entry,
  abort_routes, abort_client,
}
use cipher_chat.FileRoutes.Invariant.{IsEntry, Entries, IsValid}
use cipher_chat.FileRoutes.Slots.{view}

-- The entry that replaces another one holds the same transfer or none, and forwards under no new id.
abort_entry-is_route :
    (c s x : ℕ) (r : FileRoute) → bit (is_route s x (abort_entry c r).1) ≤ bit (is_route s x r)
unfolding abort_entry is_route
abort_entry-is_route c s x r = ground arith

abort_entry-forwards_as :
    (c o : ℕ) (r : FileRoute) → bit (forwards_as o (abort_entry c r).1) ≤ bit (forwards_as o r)
unfolding abort_entry forwards_as
abort_entry-forwards_as c o r = ground arith

abort_entry-IsEntry : (c : ℕ) (r : FileRoute) → IsEntry r → IsEntry (abort_entry c r).1
unfolding abort_entry forwards_as
abort_entry-IsEntry c r e = ground arith

count-abort_is_route :
    (c s x : ℕ) (rs : List FileRoute)
    → count (is_route s x) (abort_routes c rs) ≤ count (is_route s x) rs
unfolding count abort_routes
count-abort_is_route c s x [] = omega arith
count-abort_is_route c s x (r ∷ rs) =
    omega (arith, abort_entry-is_route c s x r, count-abort_is_route c s x rs)

count-abort_forwards :
    (c o : ℕ) (rs : List FileRoute)
    → count (forwards_as o) (abort_routes c rs) ≤ count (forwards_as o) rs
unfolding count abort_routes
count-abort_forwards c o [] = omega arith
count-abort_forwards c o (r ∷ rs) =
    omega (arith, abort_entry-forwards_as c o r, count-abort_forwards c o rs)

length-abort_routes : (c : ℕ) (rs : List FileRoute) → length (abort_routes c rs) ≡ length rs
unfolding abort_routes
length-abort_routes c [] = refl
length-abort_routes c (r ∷ rs) = ap suc (length-abort_routes c rs)

Entries-abort_routes : (c : ℕ) (rs : List FileRoute) → Entries rs → Entries (abort_routes c rs)
unfolding abort_routes
Entries-abort_routes c [] h = tt
Entries-abort_routes c (r ∷ rs) h = (abort_entry-IsEntry c r h.0, Entries-abort_routes c rs h.1)

abort_routes-IsValid :
    {t : RouteTable} (c : ℕ) → IsValid t → IsValid (record t { routes = abort_routes c t.routes })
abort_routes-IsValid {t} c v = record {
  slots = omega (arith, length-abort_routes c t.routes, v.slots);
  counter = v.counter;
  entries = Entries-abort_routes c t.routes v.entries;
  keys = λ s x. omega (arith, count-abort_is_route c s x t.routes, v.keys s x);
  ids = λ o. omega (arith, count-abort_forwards c o t.routes, v.ids o);
}

pub abort_client-IsValid :
    {t : RouteTable} (c room : ℕ) → IsValid t → IsValid (abort_client t c room).1
unfolding abort_client
abort_client-IsValid c room v = ground (arith, abort_routes-IsValid c v)

-- What the departure of `c` makes of an entry: nothing of a transfer that `c` sends, a tombstone of
-- one that it receives.
pub departed : ℕ → Option FileRoute → Option FileRoute
departed c none = none
departed c (some r) =
    if r.sender_id == c
    then none
    else if not r.discard && r.target_id == c
    then some (make_discard_route r.sender_id r.source_transfer_id)
    else some r

abort_entry-other :
    (c s x : ℕ) (r : FileRoute) → is_route s x r ≡ false → is_route s x (abort_entry c r).1 ≡ false
unfolding abort_entry is_route
abort_entry-other c s x r h = ground arith

abort_entry-departed :
    (c s x : ℕ) (r : FileRoute)
    → c ≢ invalid_client_id
    → IsEntry r
    → is_route s x r ≡ true
    → (if is_route s x (abort_entry c r).1 then some (abort_entry c r).1 else none)
      ≡ departed c (some r)
unfolding abort_entry is_route departed
abort_entry-departed c s x r ne h e = ground arith

-- The first entry of a transfer, if no other slot holds it.
view-abort_routes :
    (c s x : ℕ) (rs : List FileRoute)
    → c ≢ invalid_client_id
    → Entries rs
    → count (is_route s x) rs ≤ 1
    → view (abort_routes c rs) s x ≡ departed c (view rs s x)
unfolding abort_routes departed find count
view-abort_routes c s x [] ne h u = refl
view-abort_routes c s x (r ∷ rs) ne h u = elim (Bool-cases (is_route s x r)) [
  | inr miss ↦
      rw (miss, abort_entry-other c s x r miss)
        (view-abort_routes c s x rs ne h.1 (omega (arith, u, ap bit miss)))
  | inl hit ↦
      let rest : count (is_route s x) (abort_routes c rs) ≡ 0 =
        omega (arith, u, ap bit hit, count-abort_is_route c s x rs) in
      rw (hit, count_zero-find (is_route s x) (abort_routes c rs) rest)
        (abort_entry-departed c s x r ne h.0 hit)
]

-- When a client with an id other than 0 leaves a valid table, every transfer that it sends is
-- forgotten, every one that it receives becomes a tombstone of its sender, and every other one
-- stays as it was.
pub view-abort_client :
    {t : RouteTable} (c s x room : ℕ)
    → c ≢ invalid_client_id
    → IsValid t
    → view (abort_client t c room).1.routes s x ≡ departed c (view t.routes s x)
unfolding abort_client
view-abort_client {t} c s x room ne v =
    ground (arith, view-abort_routes c s x t.routes ne v.entries (v.keys s x))

-- What is left of a transfer does not go to the client that has left.
pub departed-target :
    (c : ℕ) (o : Option FileRoute) {r : FileRoute}
    → departed c o ≡ some r
    → r.discard ≡ false
    → r.target_id ≢ c
unfolding departed
departed-target c none e d = absurd (ground arith)
departed-target c (some q) {r} e d = elim (Bool-cases (q.sender_id == c)) [
  | inl own ↦ absurd (ground arith)
  | inr other ↦ elim (Bool-cases (not q.discard && q.target_id == c)) [
    | inl to_it ↦ absurd (ground arith)
    | inr free ↦ ground arith
  ]
]

-- Nothing is left of what it sends.
pub departed-sender : (c x : ℕ) (rs : List FileRoute) → departed c (view rs c x) ≡ none
unfolding departed find is_route
departed-sender c x [] = refl
departed-sender c x (r ∷ rs) = elim (Bool-cases (is_route c x r)) [
  | inl hit ↦ rw hit (ground arith)
  | inr miss ↦ rw miss (departed-sender c x rs)
]
