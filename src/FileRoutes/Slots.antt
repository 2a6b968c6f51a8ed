-- ===== src/FileRoutes/Slots.antt =====
-- The slot that an operation on the transfer (sender, source id) writes: the one that holds the
-- transfer, or a free one if none does. What a write there does to the table, seen as a map.
use cipher_chat.Prelude.{
  ℕ, ◌≤◌, ◌≡◌, refl, ap, ◌⊎◌, inl, inr, Bool, true, false, ◌&&◌, Option, none, some, List, arith,
  ◌==◌, if◌then◌else◌, get_elem?, set, get_or-get_elem?, Bool-cases,
}
use cipher_chat.Prelude.Table.{
  Found, bit, bit-le, count, find, find_index, find_index-Found, count-set, find-set_other,
  find-set_new, find-set_gone,
}
use mathlib.Core.Path.{fun_ext}
use cipher_chat.FileRoutes.{
  FileRoute, zero_route, is_route, find_route, is_free, find_free_route, slot,
}

-- The entry of a transfer.
abbrev pub view : List FileRoute → ℕ → ℕ → Option FileRoute
view rs s x = find (is_route s x) rs

unfoldable pub same_transfer : ℕ → ℕ → ℕ → ℕ → Bool
same_transfer s x s' x' = s == s' && x == x'

-- No two slots hold the same transfer.
abbrev pub UniqueKeys : List FileRoute → Type 0
UniqueKeys rs = (s x : ℕ) → count (is_route s x) rs ≤ 1

-- `i` is a slot that a write for the transfer may use.
pub record Target (rs : List FileRoute) (s x i : ℕ) (old : FileRoute) : Type 0 where
  pub at : get_elem? rs i ≡ some old
  pub held : slot rs i ≡ old
  pub only : count (is_route s x) rs ≤ bit (is_route s x old)
  pub others : (s' x' : ℕ) → same_transfer s x s' x' ≡ false → is_route s' x' old ≡ false

pub is_route-other :
    (s x s' x' : ℕ) (r : FileRoute)
    → is_route s x r ≡ true
    → same_transfer s x s' x' ≡ false
    → is_route s' x' r ≡ false
unfolding is_route same_transfer
is_route-other s x s' x' r h ne = ground arith

is_route-same :
    (s x s' x' : ℕ) (r : FileRoute)
    → same_transfer s x s' x' ≡ true
    → is_route s' x' r ≡ is_route s x r
unfolding is_route same_transfer
is_route-same s x s' x' r h = ground arith

is_route-inactive : (s x : ℕ) (r : FileRoute) → is_free r ≡ true → is_route s x r ≡ false
unfolding is_route is_free
is_route-inactive s x r h = ground arith

-- The transfer is in no slot, or in the one that the search returns.
pub find_route-cases :
    (rs : List FileRoute) (s x : ℕ)
    → UniqueKeys rs
    → ((find_route s x rs ≡ none) × (count (is_route s x) rs ≡ 0) × (view rs s x ≡ none))
      ⊎ ((i : ℕ) × (r : FileRoute) × (find_route s x rs ≡ some i)
          × Target rs s x i r
          × (is_route s x r ≡ true)
          × (view rs s x ≡ some r))
unfolding find_route
find_route-cases rs s x unique =
    go (find_index (is_route s x) rs) (find_index-Found (is_route s x) rs)
  where
    go :
        (o : Option ℕ)
        → Found (is_route s x) rs o
        → ((o ≡ none) × (count (is_route s x) rs ≡ 0) × (view rs s x ≡ none))
          ⊎ ((i : ℕ) × (r : FileRoute) × (o ≡ some i)
              × Target rs s x i r
              × (is_route s x r ≡ true)
              × (view rs s x ≡ some r))
    go none (c, f) = inl (refl, c, f)
    go (some i) (r, at, e, b, f) = inr (i, r, refl, found, e, f)
      where
        found : Target rs s x i r
        found = record {
          at = at;
          held = get_or-get_elem? rs i zero_route at;
          only = rw e (unique s x);
          others = λ s' x' ne. is_route-other s x s' x' r e ne;
        }

-- A search for a free slot finds one, or every slot is taken.
pub find_free_route-cases :
    (rs : List FileRoute) (s x : ℕ)
    → count (is_route s x) rs ≡ 0
    → ((find_free_route rs ≡ none) × (count is_free rs ≡ 0))
      ⊎ ((i : ℕ) × (r : FileRoute) × (find_free_route rs ≡ some i)
          × Target rs s x i r
          × (is_free r ≡ true))
unfolding find_free_route
find_free_route-cases rs s x absent = go (find_index is_free rs) (find_index-Found is_free rs)
  where
    go :
        (o : Option ℕ)
        → Found is_free rs o
        → ((o ≡ none) × (count is_free rs ≡ 0))
          ⊎ ((i : ℕ) × (r : FileRoute) × (o ≡ some i) × Target rs s x i r × (is_free r ≡ true))
    go none (c, f) = inl (refl, c)
    go (some i) (r, at, e, b, f) = inr (i, r, refl, found, e)
      where
        found : Target rs s x i r
        found = record {
          at = at;
          held = get_or-get_elem? rs i zero_route at;
          only = omega (arith, absent);
          others = λ s' x' ne. is_route-inactive s' x' r e;
        }

module _ {rs : List FileRoute} {s x i : ℕ} {old : FileRoute} (t : Target rs s x i old)
    (new : FileRoute) where
  pub UniqueKeys-set :
      UniqueKeys rs
      → ((s' x' : ℕ) → same_transfer s x s' x' ≡ false → is_route s' x' new ≡ false)
      → UniqueKeys (set rs i new)
  UniqueKeys-set unique local s' x' = elim (Bool-cases (same_transfer s x s' x')) [
    | inl same ↦
        let e = fun_ext (λ r. is_route-same s x s' x' r same) in
        rw e (
          omega
            (arith, count-set (is_route s x) rs i new old t.at, t.only, bit-le (is_route s x new)))
    | inr other ↦ omega (
      arith,
      count-set (is_route s' x') rs i new old t.at,
      unique s' x',
      ap bit (t.others s' x' other),
      ap bit (local s' x' other),
    )
  ]

  pub view-set :
      is_route s x new ≡ true
      → (s' x' : ℕ)
      → view (set rs i new) s' x' ≡ (if same_transfer s x s' x' then some new else view rs s' x')
  view-set fits s' x' = elim (Bool-cases (same_transfer s x s' x')) [
    | inl same ↦
        let e = fun_ext (λ r. is_route-same s x s' x' r same) in
        rw (same, e) (find-set_new (is_route s x) rs i new old t.at t.only fits)
    | inr other ↦ rw other (
        find-set_other (is_route s' x') rs i new old t.at (t.others s' x' other)
          (is_route-other s x s' x' new fits other))
  ]

  pub view-clear :
      ((s' x' : ℕ) → is_route s' x' new ≡ false)
      → (s' x' : ℕ)
      → view (set rs i new) s' x' ≡ (if same_transfer s x s' x' then none else view rs s' x')
  view-clear gone s' x' = elim (Bool-cases (same_transfer s x s' x')) [
    | inl same ↦
        let e = fun_ext (λ r. is_route-same s x s' x' r same) in
        rw (same, e) (find-set_gone (is_route s x) rs i new old t.at t.only (gone s x))
    | inr other ↦
        rw other
          (find-set_other (is_route s' x') rs i new old t.at (t.others s' x' other) (gone s' x'))
  ]
