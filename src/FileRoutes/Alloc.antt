-- ===== src/FileRoutes/Alloc.antt =====
-- `allocate_outbound_id_locked`: 401 candidates are enough for 400 slots.
use cipher_chat.Prelude.{
  ℕ, zero, suc, ◌+◌, ◌-◌, ◌*◌, ◌%◌, ◌≤◌, ◌<◌, ◌≡◌, refl, ◌≢◌, inl, inr, true, false, List, [], ◌∷◌,
  arith, ◌==◌, if◌then◌else◌, length, Bool-cases,
}
use native.Mathlib.Decide.{ℕ_discrete}
use cipher_chat.Prelude.Table.{bit, bit-le, count}
use cipher_chat.Wire.{u32_mod}
use cipher_chat.FileRoutes.{
  FileRoute, file_route_capacity, forwards_as, in_use, next_id, allocate, allocate_outbound_id,
}

in_use-count : (c : ℕ) (rs : List FileRoute) → in_use c rs ≡ true → 1 ≤ count (forwards_as c) rs
unfolding in_use count
in_use-count c [] h = ground arith
in_use-count c (r ∷ rs) h = ground (arith, in_use-count c rs)

pub count-in_use :
    (c : ℕ) (rs : List FileRoute) → in_use c rs ≡ false → count (forwards_as c) rs ≡ 0
unfolding in_use count
count-in_use c [] h = refl
count-in_use c (r ∷ rs) h = ground (arith, count-in_use c rs)

-- How many slots forward under one of the `n` ids from `s` on, each counted once for each id.
busy : ℕ → ℕ → List FileRoute → ℕ
busy s zero rs = 0
busy s (suc n) rs = count (forwards_as s) rs + busy (next_id s) n rs

-- The same for a single slot: at most once, where its id stands in the cycle.
busy_one : ℕ → ℕ → FileRoute → ℕ
busy_one s zero r = 0
busy_one s (suc n) r = bit (forwards_as s r) + busy_one (next_id s) n r

-- The place of `c` in the cycle of ids that starts at `s`.
abbrev place : ℕ → ℕ → ℕ
place s c = (c + u32_mod - s) % u32_mod

place-next : (s c : ℕ) → s < u32_mod → c < u32_mod → s ≢ c → place s c ≡ suc (place (next_id s) c)
place-next s c hs hc ne = omega arith

place-next_self : (s : ℕ) → s < u32_mod → place (next_id s) s ≡ u32_mod - 1
place-next_self s hs = omega arith

forwards_as_ne : (s : ℕ) (r : FileRoute) → s ≢ r.outbound_transfer_id → bit (forwards_as s r) ≡ 0
unfolding forwards_as
forwards_as_ne s r ne = ground arith

busy_one-le :
    (n s : ℕ) (r : FileRoute)
    → n ≤ u32_mod
    → s < u32_mod
    → r.outbound_transfer_id < u32_mod
    → (busy_one s n r ≤ 1) × (n ≤ place s r.outbound_transfer_id → busy_one s n r ≡ 0)
unfolding busy_one
busy_one-le zero s r hn hs hr = (omega arith, λ _. refl)
busy_one-le (suc n) s r hn hs hr =
    let rest = busy_one-le n (next_id s) r (omega arith) (omega arith) hr in
    elim (ℕ_discrete s r.outbound_transfer_id) [ yes e ↦ here rest e | no ne ↦ there rest ne ]
  where
    Rest : Type 0
    Rest =
        (busy_one (next_id s) n r ≤ 1)
        × (n ≤ place (next_id s) r.outbound_transfer_id → busy_one (next_id s) n r ≡ 0)

    Goal : Type 0
    Goal =
        (bit (forwards_as s r) + busy_one (next_id s) n r ≤ 1)
        × (suc n ≤ place s r.outbound_transfer_id
            → bit (forwards_as s r) + busy_one (next_id s) n r ≡ 0)

    here : Rest → s ≡ r.outbound_transfer_id → Goal
    here rest e =
        let z : busy_one (next_id s) n r ≡ 0 =
          rest.1 (rw (← e, place-next_self s hs) (omega arith)) in
        (omega (arith, z, bit-le (forwards_as s r)), λ h. absurd (omega (arith, e)))

    there : Rest → s ≢ r.outbound_transfer_id → Goal
    there rest ne =
        let b = forwards_as_ne s r ne in
        let p = place-next s r.outbound_transfer_id hs hr ne in
        (omega (arith, rest.0, b), λ h. omega (arith, b, rest.1 (omega (arith, p, h))))

-- Every slot's id fits in 32 bits.
abbrev pub Fits : List FileRoute → Type 0
Fits [] = Unit {0}
Fits (r ∷ rs) = (r.outbound_transfer_id < u32_mod) × Fits rs

busy-nil : (n s : ℕ) → busy s n [] ≡ 0
unfolding busy count
busy-nil zero s = refl
busy-nil (suc n) s = omega (arith, busy-nil n (next_id s))

busy-cons :
    (n s : ℕ) (r : FileRoute) (rs : List FileRoute)
    → busy s n (r ∷ rs) ≡ busy_one s n r + busy s n rs
unfolding busy busy_one count
busy-cons zero s r rs = refl
busy-cons (suc n) s r rs = omega (arith, busy-cons n (next_id s) r rs)

busy-le-length :
    (rs : List FileRoute) (n s : ℕ) → n ≤ u32_mod → s < u32_mod → Fits rs → busy s n rs ≤ length rs
busy-le-length [] n s hn hs h = omega (arith, busy-nil n s)
busy-le-length (r ∷ rs) n s hn hs h =
    omega
      (arith, busy-cons n s r rs, (busy_one-le n s r hn hs h.0).0, busy-le-length rs n s hn hs h.1)

-- A failed run of the loop has met a busy id at each attempt, and used at most two numbers for each.
abbrev Failed : ℕ → ℕ → ℕ → List FileRoute → Type 0
Failed k limit s rs = (n : ℕ) × (n ≤ limit) × (k ≤ busy s n rs)

attempt-Failed :
    (k c : ℕ) (rs : List FileRoute)
    → c ≢ 0
    → ((allocate k rs (next_id c)).0 ≡ 0 → Failed k (2 * k) (next_id c) rs)
    → (if in_use c rs then allocate k rs (next_id c) else (c, next_id c)).0 ≡ 0
    → Failed (suc k) (2 * k + 1) c rs
unfolding busy
attempt-Failed k c rs ne ih h = elim (Bool-cases (in_use c rs)) [
  | inl used ↦
      let (n, le, deep) = ih (rw used at h) in
      (suc n, omega (arith, le), omega (arith, deep, in_use-count c rs used))
  | inr free ↦ absurd (ne (rw free at h))
]

suc-ne-zero : (s : ℕ) → (suc s == 0) ≡ false
suc-ne-zero s = ground arith

allocate-Failed :
    (k s : ℕ) (rs : List FileRoute) → s < u32_mod → (allocate k rs s).0 ≡ 0 → Failed k (2 * k) s rs
unfolding allocate busy
allocate-Failed zero s rs hs h = (0, omega arith, omega arith)
allocate-Failed (suc k) zero rs hs h =
    let (n, le, deep) =
      attempt-Failed k 1 rs (omega arith) (allocate-Failed k 2 rs (omega arith)) h in
    (suc n, omega (arith, le), omega (arith, deep))
allocate-Failed (suc k) (suc s) rs hs h =
    let (n, le, deep) =
      attempt-Failed k (suc s) rs (omega arith)
        (allocate-Failed k (next_id (suc s)) rs (omega arith)) (rw (suc-ne-zero s) at h) in
    (n, omega (arith, le), deep)

-- What a successful run returns.
allocate-free :
    (k s : ℕ) (rs : List FileRoute)
    → s < u32_mod
    → (allocate k rs s).0 ≢ 0
    → ((allocate k rs s).0 < u32_mod) × (count (forwards_as (allocate k rs s).0) rs ≡ 0)
unfolding allocate
allocate-free zero s rs hs h = absurd (h refl)
allocate-free (suc k) zero rs hs h = ground (arith, allocate-free k 2 rs, count-in_use 1 rs)
allocate-free (suc k) (suc s) rs hs h =
    ground (arith, allocate-free k (next_id (suc s)) rs, count-in_use (suc s) rs)

pub allocate-next : (k s : ℕ) (rs : List FileRoute) → s < u32_mod → (allocate k rs s).1 < u32_mod
unfolding allocate
allocate-next zero s rs hs = hs
allocate-next (suc k) zero rs hs = ground (arith, allocate-next k 2 rs)
allocate-next (suc k) (suc s) rs hs = ground (arith, allocate-next k (next_id (suc s)) rs)

-- In a table of at most 400 slots whose ids fit in 32 bits, and with a counter of 32 bits, the
-- allocation always succeeds: the id it returns is not 0, fits in 32 bits and is not the id of any
-- slot that forwards, and the counter stays within 32 bits.
pub allocate_outbound_id_succeeds :
    (rs : List FileRoute) (next : ℕ)
    → length rs ≤ file_route_capacity
    → Fits rs
    → next < u32_mod
    → let (id, next') = allocate_outbound_id rs next in
      (id ≢ 0) × (id < u32_mod) × (count (forwards_as id) rs ≡ 0) × (next' < u32_mod)
unfolding allocate_outbound_id
allocate_outbound_id_succeeds rs next short fits small = (
  found,
  (allocate-free 401 next rs small found).0,
  (allocate-free 401 next rs small found).1,
  allocate-next 401 next rs small,
)
  where
    found : (allocate 401 rs next).0 ≢ 0
    found none_left =
        let (n, le, deep) = allocate-Failed 401 next rs small none_left in
        omega (arith, deep, le, busy-le-length rs n next (omega (arith, le)) small fits)
