-- ===== src/FileRoutes/Invariant.antt =====
-- What holds of the table of routes between two calls.
use cipher_chat.Prelude.{
  ℕ, zero, suc, ◌+◌, ◌≤◌, ◌<◌, ◌≡◌, refl, ap, subst, ◌∙◌, ◌≢◌, true, false, Option, none, some,
  List, [], ◌∷◌, arith, length, get_elem?, set, length-set, replicate, length-replicate,
}
use cipher_chat.Prelude.Table.{bit, count, count-set, count-replicate}
use cipher_chat.Wire.{u32_mod, u64_mod}
use cipher_chat.FileRoutes.{
  FileRoute, RouteTable, file_route_capacity, invalid_client_id, zero_route, make_discard_route,
  init, is_route, forwards_as, store,
}
use cipher_chat.FileRoutes.Alloc.{Fits}
use cipher_chat.FileRoutes.Slots.{UniqueKeys, Target, same_transfer, UniqueKeys-set}

-- A slot: its numbers fit in their types, it has not forwarded more than was declared, and a transfer
-- that forwards has an outbound id other than 0. A tombstone has no target, and a transfer has a
-- sender, which is not its recipient.
pub record IsEntry (r : FileRoute) : Type 0 where
  pub id_fits : r.outbound_transfer_id < u32_mod
  pub within : r.forwarded_size ≤ r.expected_size
  pub size_fits : r.expected_size < u64_mod
  pub id_given : forwards_as 0 r ≡ false
  pub no_target : r.discard ≡ true → r.target_id ≡ invalid_client_id
  pub has_sender : r.active ≡ true → r.sender_id ≢ invalid_client_id
  pub apart : r.active ≡ true → r.sender_id ≢ r.target_id

abbrev pub Entries : List FileRoute → Type 0
Entries [] = Unit {0}
Entries (r ∷ rs) = IsEntry r × Entries rs

-- The whole table: 400 slots, no transfer twice, no outbound id twice.
pub record IsValid (t : RouteTable) : Type 0 where
  pub slots : length t.routes ≡ file_route_capacity
  pub counter : t.next_outbound_transfer_id < u32_mod
  pub entries : Entries t.routes
  pub keys : UniqueKeys t.routes
  pub ids : (c : ℕ) → count (forwards_as c) t.routes ≤ 1

pub Entries-Fits : (rs : List FileRoute) → Entries rs → Fits rs
Entries-Fits [] h = tt
Entries-Fits (r ∷ rs) h = (h.0.id_fits, Entries-Fits rs h.1)

abbrev from_some : FileRoute → Option FileRoute → FileRoute
from_some d none = d
from_some d (some r) = r

pub Entries-at :
    (rs : List FileRoute) (i : ℕ) (r : FileRoute) → get_elem? rs i ≡ some r → Entries rs → IsEntry r
Entries-at [] i r e h = cc
Entries-at (x ∷ rs) zero r e h = subst IsEntry (ap (from_some x) e) h.0
Entries-at (x ∷ rs) (suc i) r e h = Entries-at rs i r e h.1

pub Entries-set :
    (rs : List FileRoute) (i : ℕ) {r : FileRoute} → IsEntry r → Entries rs → Entries (set rs i r)
Entries-set [] i e h = tt
Entries-set (r ∷ rs) zero e h = (e, h.1)
Entries-set (r ∷ rs) (suc i) e h = (h.0, Entries-set rs i e h.1)

zero_route-IsEntry : IsEntry zero_route
unfolding forwards_as
zero_route-IsEntry = ground arith

tombstone-IsEntry : (s x : ℕ) → s ≢ invalid_client_id → IsEntry (make_discard_route s x)
unfolding forwards_as
tombstone-IsEntry s x given = ground arith

module _ {t : RouteTable} (v : IsValid t) {s x i : ℕ} {old : FileRoute}
    (at : Target t.routes s x i old) where
  -- A write into the slot of a transfer.
  pub put-IsValid :
      (new : FileRoute) (next : ℕ)
      → next < u32_mod
      → IsEntry new
      → ((s' x' : ℕ) → same_transfer s x s' x' ≡ false → is_route s' x' new ≡ false)
      → ((c : ℕ)
          → count (forwards_as c) t.routes + bit (forwards_as c new) ≤ 1 + bit (forwards_as c old))
      → IsValid (record { routes = set t.routes i new; next_outbound_transfer_id = next })
  put-IsValid new next small entry local fresh = record {
    slots = length-set t.routes i new ∙ v.slots;
    counter = small;
    entries = Entries-set t.routes i entry v.entries;
    keys = UniqueKeys-set at new v.keys local;
    ids = λ c. omega (arith, count-set (forwards_as c) t.routes i new old at.at, fresh c);
  }

  -- One that forwards nothing.
  quiet-IsValid :
      (new : FileRoute)
      → IsEntry new
      → ((s' x' : ℕ) → same_transfer s x s' x' ≡ false → is_route s' x' new ≡ false)
      → ((c : ℕ) → forwards_as c new ≡ false)
      → IsValid (store t i new)
  quiet-IsValid new entry local quiet =
      put-IsValid new t.next_outbound_transfer_id v.counter entry local
        (λ c. rw (quiet c) (omega (arith, v.ids c)))

  pub tombstone-IsValid : s ≢ invalid_client_id → IsValid (store t i (make_discard_route s x))
  unfolding is_route same_transfer forwards_as
  tombstone-IsValid given =
      quiet-IsValid (make_discard_route s x) (tombstone-IsEntry s x given) (λ s' x' ne. ne)
        (λ c. refl)

  pub clear-IsValid : IsValid (store t i zero_route)
  unfolding is_route forwards_as
  clear-IsValid = quiet-IsValid zero_route zero_route-IsEntry (λ s' x' ne. refl) (λ c. refl)

Entries-replicate : (n : ℕ) → Entries (replicate n zero_route)
Entries-replicate zero = tt
Entries-replicate (suc n) = (zero_route-IsEntry, Entries-replicate n)

pub init-IsValid : IsValid init
unfolding init is_route forwards_as
init-IsValid = record {
  slots = length-replicate file_route_capacity zero_route;
  counter = omega arith;
  entries = Entries-replicate file_route_capacity;
  keys = λ s x. omega (arith, count-replicate (is_route s x) file_route_capacity zero_route refl);
  ids = λ c. omega (arith, count-replicate (forwards_as c) file_route_capacity zero_route refl);
}
