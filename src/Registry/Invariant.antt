-- ===== src/Registry/Invariant.antt =====
-- What holds of the table of clients between two calls.
use cipher_chat.Prelude.{
  ℕ, zero, suc, ◌+◌, ◌≤◌, ◌<◌, ◌≡◌, refl, sym, ◌∙◌, ◌≢◌, true, false, List, [], ◌∷◌, arith, length,
  set, get_elem?-eq-get_or, length-set, length-map, map, replicate, length-replicate,
}
use cipher_chat.Prelude.Table.{bit, count, count-set, count-replicate}
use cipher_chat.Text.{str_eq}
use cipher_chat.Registry.{
  Client, Registry, max_clients, max_outgoing_frames, invalid_client_id, zero_client, cleared,
  init_clients, start, client_at, is_named, has_id,
}

-- A slot: its queue is counted and bounded. A free slot has an empty queue, and a taken one an id.
pub record IsClient (c : Client) : Type 0 where
  pub counted : c.outgoing_count ≡ length c.outgoing
  pub bounded : c.outgoing_count ≤ max_outgoing_frames
  pub emptied : c.active ≡ false → c.outgoing_count ≡ 0
  pub waits : c.active ≡ false → c.ready ≡ false
  pub id_given : c.active ≡ true → c.id ≢ invalid_client_id

abbrev pub Clients : ℕ → List Client → Type 0
Clients next [] = Unit {0}
Clients next (c ∷ cs) = IsClient c × (c.active ≡ true → c.id < next) × Clients next cs

-- The whole table: 100 slots, ids below the counter, no id and no name twice.
pub record IsValid (r : Registry) : Type 0 where
  pub slots : length r.clients ≡ max_clients
  pub counter : r.next_client_id ≢ invalid_client_id
  pub each : Clients r.next_client_id r.clients
  pub ids : (k : ℕ) → count (has_id k) r.clients ≤ 1
  pub names : (name : List ℕ) → count (is_named name) r.clients ≤ 1

pub Clients-at :
    (next : ℕ) (cs : List Client) (i : ℕ)
    → i < length cs
    → Clients next cs
    → IsClient (client_at cs i) × ((client_at cs i).active ≡ true → (client_at cs i).id < next)
Clients-at next [] i h v = elim h [ ]
Clients-at next (c ∷ cs) zero h v = (v.0, v.1)
Clients-at next (c ∷ cs) (suc i) h v = Clients-at next cs i (omega arith) v.2

pub Clients-set :
    (next : ℕ) (cs : List Client) (i : ℕ) {c : Client}
    → IsClient c
    → (c.active ≡ true → c.id < next)
    → Clients next cs
    → Clients next (set cs i c)
Clients-set next [] i e b v = tt
Clients-set next (c ∷ cs) zero e b v = (e, b, v.2)
Clients-set next (c ∷ cs) (suc i) e b v = (v.0, v.1, Clients-set next cs i e b v.2)

pub Clients-mono :
    (next more : ℕ) (cs : List Client) → next ≤ more → Clients next cs → Clients more cs
Clients-mono next more [] le v = tt
Clients-mono next more (c ∷ cs) le v =
    (v.0, λ a. omega (arith, v.1 a), Clients-mono next more cs le v.2)

-- No client has an id that is still to be given.
pub fresh_id :
    (next k : ℕ) (cs : List Client) → next ≤ k → Clients next cs → count (has_id k) cs ≡ 0
unfolding count has_id
fresh_id next k [] le v = refl
fresh_id next k (c ∷ cs) le v = ground (arith, v.1, fresh_id next k cs le v.2)

-- The test by `strcmp` decides equality.
pub str_eq-eq : (xs ys : List ℕ) → str_eq xs ys ≡ true → xs ≡ ys
unfolding str_eq
str_eq-eq [] [] h = refl
str_eq-eq [] (y ∷ ys) h = cc
str_eq-eq (x ∷ xs) [] h = cc
str_eq-eq (x ∷ xs) (y ∷ ys) h = ground (arith, str_eq-eq xs ys)

pub str_eq_self : (xs : List ℕ) → str_eq xs xs ≡ true
unfolding str_eq
str_eq_self [] = refl
str_eq_self (x ∷ xs) = ground (arith, str_eq_self xs)

module _ {r : Registry} (v : IsValid r) (i : ℕ) (inside : i < max_clients) where
  -- A write of a slot, with the counter and the calls as they are then.
  pub put-IsValid :
      (new : Client) (next calls : ℕ)
      → IsClient new
      → (new.active ≡ true → new.id < next)
      → next ≢ invalid_client_id
      → r.next_client_id ≤ next
      → ((k : ℕ)
          → count (has_id k) r.clients + bit (has_id k new)
            ≤ 1 + bit (has_id k (client_at r.clients i)))
      → ((name : List ℕ)
          → count (is_named name) r.clients + bit (is_named name new)
            ≤ 1 + bit (is_named name (client_at r.clients i)))
      → IsValid (record { clients = set r.clients i new; next_client_id = next; calls = calls })
  put-IsValid new next calls c below ne le id_ok name_ok =
      let old = client_at r.clients i in
      let at = get_elem?-eq-get_or r.clients i zero_client (omega (arith, v.slots)) in
      record {
        slots = length-set r.clients i new ∙ v.slots;
        counter = ne;
        each =
            Clients-set next r.clients i c below
              (Clients-mono r.next_client_id next r.clients le v.each);
        ids = λ k. omega (arith, count-set (has_id k) r.clients i new old at, id_ok k);
        names =
            λ name. omega (arith, count-set (is_named name) r.clients i new old at, name_ok name);
      }

  -- One that leaves the identity of the client alone.
  pub same-IsValid :
      (new : Client) (calls : ℕ)
      → IsClient new
      → new.active ≡ (client_at r.clients i).active
      → new.id ≡ (client_at r.clients i).id
      → new.username ≡ (client_at r.clients i).username
      → IsValid (record r { clients = set r.clients i new; calls = calls })
  unfolding has_id is_named
  same-IsValid new calls c a d n =
      let old = Clients-at r.next_client_id r.clients i (omega (arith, v.slots)) v.each in
      put-IsValid new r.next_client_id calls c (λ e. rw d (old.1 (sym a ∙ e))) v.counter
        (omega arith) (λ k. rw (a, d) (omega (arith, v.ids k)))
        (λ name. rw (a, n) (omega (arith, v.names name)))

pub calls-IsValid : {r : Registry} (calls : ℕ) → IsValid r → IsValid (record r { calls = calls })
calls-IsValid calls v = record {
  slots = v.slots;
  counter = v.counter;
  each = v.each;
  ids = v.ids;
  names = v.names;
}

zero_client-IsClient : IsClient zero_client
zero_client-IsClient = ground arith

Clients-replicate : (n : ℕ) → Clients 1 (replicate n zero_client)
Clients-replicate zero = tt
Clients-replicate (suc n) = (zero_client-IsClient, λ e. absurd (ground arith), Clients-replicate n)

pub start-IsValid : IsValid start
unfolding start has_id is_named
start-IsValid = record {
  slots = length-replicate max_clients zero_client;
  counter = omega arith;
  each = Clients-replicate max_clients;
  ids = λ k. omega (arith, count-replicate (has_id k) max_clients zero_client refl);
  names = λ n. omega (arith, count-replicate (is_named n) max_clients zero_client refl);
}

cleared-IsClient : (c : Client) → IsClient (cleared c)
cleared-IsClient c = ground arith

Clients-cleared : (next : ℕ) (cs : List Client) → Clients next (map cleared cs)
Clients-cleared next [] = tt
Clients-cleared next (c ∷ cs) =
    (cleared-IsClient c, λ e. absurd (ground arith), Clients-cleared next cs)

count-cleared_id : (k : ℕ) (cs : List Client) → count (has_id k) (map cleared cs) ≡ 0
unfolding count has_id
count-cleared_id k [] = refl
count-cleared_id k (c ∷ cs) = omega (arith, count-cleared_id k cs)

count-cleared_name : (name : List ℕ) (cs : List Client) → count (is_named name) (map cleared cs) ≡ 0
unfolding count is_named
count-cleared_name name [] = refl
count-cleared_name name (c ∷ cs) = omega (arith, count-cleared_name name cs)

pub init_clients-IsValid : {r : Registry} → IsValid r → IsValid (init_clients r)
unfolding init_clients
init_clients-IsValid {r} v = record {
  slots = length-map r.clients cleared ∙ v.slots;
  counter = omega arith;
  each = Clients-cleared 1 r.clients;
  ids = λ k. omega (arith, count-cleared_id k r.clients);
  names = λ n. omega (arith, count-cleared_name n r.clients);
}
