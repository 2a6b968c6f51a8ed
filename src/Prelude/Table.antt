-- ===== src/Prelude/Table.antt =====
-- A C array of structures as a list: the first entry that passes a test, and how many pass.
-- `find_index` is the loop `for (i = 0; i < N; i++) if (test(a[i])) return i;`.
use Prim.Native.Nat.{ℕ, zero, suc, ◌+◌, ◌≤◌, ◌<◌}
use mathlib.Core.Path.{◌≡◌, refl, ap, ◌∙◌}
use mathlib.Core.Logic.{◌⊎◌, inl, inr}
use mathlib.Core.List.{List, [], ◌∷◌}
use mathlib.Core.Bool.{Bool, true, false}
use mathlib.Core.Option.{Option, none, some}
use native.Mathlib.Omega.{arith}
use cipher_chat.Prelude.Tests.{if◌then◌else◌, Bool-cases}
use cipher_chat.Prelude.Lists.{length, get_elem?, get_or, get_or-get_elem?, set, replicate}

abbrev pub shift : Option ℕ → Option ℕ
shift none = none
shift (some i) = some (suc i)

abbrev pub bit : Bool → ℕ
bit true = 1
bit false = 0

pub bit-le : (b : Bool) → bit b ≤ 1
bit-le true = omega arith
bit-le false = omega arith

module _ {ℓ} {A : Type ℓ} where
  unfoldable pub find_index : (A → Bool) → List A → Option ℕ
  find_index p [] = none
  find_index p (x ∷ xs) = if p x then some 0 else shift (find_index p xs)

  unfoldable pub find : (A → Bool) → List A → Option A
  find p [] = none
  find p (x ∷ xs) = if p x then some x else find p xs

  unfoldable pub count : (A → Bool) → List A → ℕ
  count p [] = 0
  count p (x ∷ xs) = bit (p x) + count p xs

  pub count-le-length : (p : A → Bool) (xs : List A) → count p xs ≤ length xs
  unfolding count
  count-le-length p [] = omega arith
  count-le-length p (x ∷ xs) = ground (arith, count-le-length p xs)

  -- What `find_index` says of a table: the entry at the index it returns, or that none passes.
  abbrev pub Found : (A → Bool) → List A → Option ℕ → Type ℓ
  Found p xs none = (count p xs ≡ 0) × (find p xs ≡ none)
  Found p xs (some i) =
      (a : A) × (get_elem? xs i ≡ some a) × (p a ≡ true) × (i < length xs) × (find p xs ≡ some a)

  Found-shift :
      (p : A → Bool) (x : A) (xs : List A) (o : Option ℕ)
      → p x ≡ false
      → Found p xs o
      → Found p (x ∷ xs) (shift o)
  unfolding count find
  Found-shift p x xs none miss (c, f) = (rw miss (omega arith), rw miss f)
  Found-shift p x xs (some i) miss (a, g, e, b, f) = (a, g, e, omega arith, rw miss f)

  pub find_index-Found : (p : A → Bool) (xs : List A) → Found p xs (find_index p xs)
  unfolding find_index count find
  find_index-Found p [] = (refl, refl)
  find_index-Found p (x ∷ xs) = elim (Bool-cases (p x)) [
    | inl hit ↦ rw hit (x, refl, hit, omega arith, rw hit)
    | inr miss ↦ rw miss (Found-shift p x xs (find_index p xs) miss (find_index-Found p xs))
  ]

  -- A search finds an entry that passes its test, or none does.
  pub find_index-cases :
      (p : A → Bool) (xs : List A) (d : A)
      → ((find_index p xs ≡ none) × (count p xs ≡ 0))
        ⊎ ((i : ℕ) × (find_index p xs ≡ some i) × (i < length xs) × (p (get_or xs i d) ≡ true))
  find_index-cases p xs d = go (find_index p xs) (find_index-Found p xs)
    where
      go :
          (o : Option ℕ)
          → Found p xs o
          → ((o ≡ none) × (count p xs ≡ 0))
            ⊎ ((i : ℕ) × (o ≡ some i) × (i < length xs) × (p (get_or xs i d) ≡ true))
      go none (c, f) = inl (refl, c)
      go (some i) (a, at, e, inside, f) =
          inr (i, refl, inside, ap p (get_or-get_elem? xs i d at) ∙ e)

  pub count-set :
      (p : A → Bool) (xs : List A) (i : ℕ) (v a : A)
      → get_elem? xs i ≡ some a
      → count p (set xs i v) + bit (p a) ≡ count p xs + bit (p v)
  unfolding count
  count-set p [] i v a h = ground arith
  count-set p (x ∷ xs) zero v a h = ground arith
  count-set p (x ∷ xs) (suc i) v a h = ground (arith, count-set p xs i v a h)

  -- The index of a write, when nothing but what is written passes.
  pub find_index-set :
      (p : A → Bool) (xs : List A) (i : ℕ) (v : A)
      → count p xs ≡ 0
      → i < length xs
      → p v ≡ true
      → find_index p (set xs i v) ≡ some i
  unfolding count find_index
  find_index-set p [] i v c h e = elim h [ ]
  find_index-set p (x ∷ xs) zero v c h e = ground arith
  find_index-set p (x ∷ xs) (suc i) v c h e = ground (arith, find_index-set p xs i v)

  pub count_zero-find_index : (p : A → Bool) (xs : List A) → count p xs ≡ 0 → find_index p xs ≡ none
  unfolding count find_index
  count_zero-find_index p [] c = refl
  count_zero-find_index p (x ∷ xs) c = ground (arith, count_zero-find_index p xs)

  pub count-replicate : (p : A → Bool) (n : ℕ) (a : A) → p a ≡ false → count p (replicate n a) ≡ 0
  unfolding count
  count-replicate p zero a h = refl
  count-replicate p (suc n) a h = rw h (omega (arith, count-replicate p n a h))

  pub find-set_other :
      (p : A → Bool) (xs : List A) (i : ℕ) (v a : A)
      → get_elem? xs i ≡ some a
      → p a ≡ false
      → p v ≡ false
      → find p (set xs i v) ≡ find p xs
  unfolding find
  find-set_other p [] i v a h e f = refl
  find-set_other p (x ∷ xs) zero v a h e f = ground arith
  find-set_other p (x ∷ xs) (suc i) v a h e f = ground (arith, find-set_other p xs i v a h e f)

  pub count_zero-find : (p : A → Bool) (xs : List A) → count p xs ≡ 0 → find p xs ≡ none
  unfolding count find
  count_zero-find p [] h = refl
  count_zero-find p (x ∷ xs) h = ground (arith, count_zero-find p xs)

  pub count-pos :
      (p : A → Bool) (xs : List A) (i : ℕ) (a : A)
      → get_elem? xs i ≡ some a
      → p a ≡ true
      → 1 ≤ count p xs
  unfolding count
  count-pos p [] i a h e = ground arith
  count-pos p (x ∷ xs) zero a h e = ground arith
  count-pos p (x ∷ xs) (suc i) a h e = ground (arith, count-pos p xs i a h e)

  pub find-set_new :
      (p : A → Bool) (xs : List A) (i : ℕ) (v a : A)
      → get_elem? xs i ≡ some a
      → count p xs ≤ bit (p a)
      → p v ≡ true
      → find p (set xs i v) ≡ some v
  unfolding count find
  find-set_new p [] i v a h c e = ground arith
  find-set_new p (x ∷ xs) zero v a h c e = ground arith
  find-set_new p (x ∷ xs) (suc i) v a h c e =
      ground (arith, find-set_new p xs i v a h, count_pos xs i h)
    where
      count_pos : (ys : List A) (j : ℕ) → get_elem? ys j ≡ some a → bit (p a) ≤ count p ys
      count_pos [] j g = ground arith
      count_pos (y ∷ ys) zero g = ground arith
      count_pos (y ∷ ys) (suc j) g = ground (arith, count_pos ys j g)

  pub find-set_gone :
      (p : A → Bool) (xs : List A) (i : ℕ) (v a : A)
      → get_elem? xs i ≡ some a
      → count p xs ≤ bit (p a)
      → p v ≡ false
      → find p (set xs i v) ≡ none
  find-set_gone p xs i v a h c e =
      count_zero-find p (set xs i v) (ground (arith, count-set p xs i v a h))

  pub find_unique :
      (p : A → Bool) (xs : List A) (i : ℕ) (a : A)
      → get_elem? xs i ≡ some a
      → p a ≡ true
      → count p xs ≤ 1
      → find p xs ≡ some a
  unfolding find count
  find_unique p [] i a h e c = ground arith
  find_unique p (x ∷ xs) zero a h e c = ground arith
  find_unique p (x ∷ xs) (suc i) a h e c =
      ground (arith, find_unique p xs i a h e, count-pos p xs i a h e)
