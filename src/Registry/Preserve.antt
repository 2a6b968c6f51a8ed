-- ===== src/Registry/Preserve.antt =====
-- Each operation of the table of clients keeps what `Invariant` says.
use cipher_chat.Prelude.{
  ℕ, ◌+◌, ◌-◌, ◌≤◌, ◌<◌, ◌≡◌, refl, ap, ◌≢◌, ◌⊎◌, inl, inr, Bool, true, false, none, some, List, [],
  ◌∷◌, ◌++◌, arith, leb, length, length-append, Bool-cases,
}
use native.Mathlib.Decide.{ℕ_discrete}
use cipher_chat.Prelude.Table as TableLemmas
use cipher_chat.Prelude.Table.{Found, bit, bit-le, count, find_index, find_index-Found}
use cipher_chat.Status.{Result, ok, err}
use cipher_chat.Wire.{u64_mod}
use cipher_chat.Text.{str_eq}
use cipher_chat.Registry.{
  Client, Registry, Connection, Os, OutgoingFrame, Notified, max_clients, max_outgoing_frames,
  invalid_client_id, zero_client, zero_key, client_at, cleared, admitted, admit, is_named, is_free,
  has_id, is_ready, store, allocate_client_id, add_client, activate_client, remove_client,
  register_client_public_key, enqueue_at, queue_frame, send_text, dequeue_at, take_outgoing_frame,
}
use cipher_chat.Registry.Invariant.{
  IsClient, IsValid, Clients-at, fresh_id, str_eq-eq, put-IsValid, same-IsValid, calls-IsValid,
}

-- A search finds a slot that passes its test, or none does.
pub find_index-cases :
    (p : Client → Bool) (cs : List Client)
    → ((find_index p cs ≡ none) × (count p cs ≡ 0))
      ⊎ ((i : ℕ) × (find_index p cs ≡ some i) × (i < length cs) × (p (client_at cs i) ≡ true))
find_index-cases p cs = TableLemmas.find_index-cases p cs zero_client

is_ready-active : (k : ℕ) (c : Client) → is_ready k c ≡ true → c.active ≡ true
unfolding is_ready
is_ready-active k c h = ground arith

allocate_client_id_lem :
    (next : ℕ)
    → next ≢ invalid_client_id
    → next + 1 < u64_mod
    → allocate_client_id next ≡ (next, next + 1)
unfolding allocate_client_id
allocate_client_id_lem next ne small = ground arith

has_id-ne : (k : ℕ) (c : Client) → c.id ≢ k → has_id k c ≡ false
unfolding has_id
has_id-ne k c ne = ground arith

-- A client whose name is not `name`.
is_named-ne :
    (name : List ℕ) (c : Client) → str_eq c.username name ≡ false → is_named name c ≡ false
unfolding is_named
is_named-ne name c ne = ground arith

is_free-inactive : (c : Client) → is_free c ≡ true → c.active ≡ false
unfolding is_free
is_free-inactive c h = ground arith

module _ {r : Registry} (v : IsValid r) where
  at_slot : (i : ℕ) → i < max_clients → IsClient (client_at r.clients i)
  at_slot i inside = (Clients-at r.next_client_id r.clients i (omega (arith, v.slots)) v.each).0

  activated :
      (i : ℕ)
      → i < max_clients
      → (client_at r.clients i).active ≡ true
      → IsValid (store r i (record (client_at r.clients i) { ready = true }))
  activated i inside on =
      let c = at_slot i inside in
      same-IsValid v i inside _ r.calls
        (record {
          counted = c.counted;
          bounded = c.bounded;
          emptied = c.emptied;
          waits = λ off. absurd (ground arith);
          id_given = c.id_given;
        })
        refl refl refl

  pub activate_client-IsValid : (index : ℕ) → IsValid (activate_client r index).1
  unfolding activate_client
  activate_client-IsValid index = ground (arith, v, activated index)

  removed :
      (i : ℕ)
      → i < max_clients
      → IsValid (store r i (record (cleared (client_at r.clients i)) { public_key = zero_key }))
  unfolding has_id is_named
  removed i inside =
      put-IsValid v i inside _ r.next_client_id r.calls (ground arith) (λ e. absurd (ground arith))
        v.counter (omega arith) (λ k. omega (arith, v.ids k)) (λ name. omega (arith, v.names name))

  pub remove_client-IsValid : (index : ℕ) → IsValid (remove_client r index).1
  unfolding remove_client
  remove_client-IsValid index = ground (arith, v, removed index)

  keyed :
      (i : ℕ) (key : List ℕ)
      → i < max_clients
      → IsValid
          (store r i (record (client_at r.clients i) { public_key = key; has_public_key = true }))
  keyed i key inside =
      let c = at_slot i inside in
      same-IsValid v i inside _ r.calls
        (record {
          counted = c.counted;
          bounded = c.bounded;
          emptied = c.emptied;
          waits = c.waits;
          id_given = c.id_given;
        })
        refl refl refl

  pub register_client_public_key-IsValid :
      (client_id : ℕ) (key : List ℕ) → IsValid (register_client_public_key r client_id key).1
  unfolding register_client_public_key
  register_client_public_key-IsValid client_id key =
      elim (find_index-cases (is_ready client_id) r.clients) [
        | inl (e, _) ↦ rw (e, register_client_public_key) v
        | inr (i, e, inside, _) ↦
            rw (e, register_client_public_key)
              (ground (arith, v, keyed i key (omega (arith, v.slots, inside))))
      ]

  taken :
      (i : ℕ) (frame : OutgoingFrame) (rest : List OutgoingFrame)
      → i < max_clients
      → (client_at r.clients i).outgoing ≡ frame ∷ rest
      → IsValid (
          store r i (record (client_at r.clients i) {
            outgoing = rest;
            outgoing_count = (client_at r.clients i).outgoing_count - 1;
          }))
  taken i frame rest inside e =
      let c = at_slot i inside in
      let l = ap (λ (l : List OutgoingFrame). length l) e in
      same-IsValid v i inside _ r.calls
        (record {
          counted = omega (arith, c.counted, l);
          bounded = omega (arith, c.bounded);
          emptied = λ off. omega (arith, c.emptied off);
          waits = c.waits;
          id_given = c.id_given;
        })
        refl refl refl

  dequeue_at-IsValid :
      (i : ℕ) (frames : List OutgoingFrame)
      → i < max_clients
      → (client_at r.clients i).outgoing ≡ frames
      → IsValid (dequeue_at r i (client_at r.clients i) frames).1
  unfolding dequeue_at
  dequeue_at-IsValid i [] inside e = v
  dequeue_at-IsValid i (frame ∷ rest) inside e = taken i frame rest inside e

  pub take_outgoing_frame-IsValid : (client_id : ℕ) → IsValid (take_outgoing_frame r client_id).1
  unfolding take_outgoing_frame
  take_outgoing_frame-IsValid client_id = elim (find_index-cases (has_id client_id) r.clients) [
    | inl (e, _) ↦ rw (e, take_outgoing_frame) (ground (arith, v))
    | inr (i, e, inside, _) ↦
        rw (e, take_outgoing_frame)
          (ground (
            arith,
            v,
            dequeue_at-IsValid i (client_at r.clients i).outgoing (omega (arith, v.slots, inside))
                refl,
          ))
  ]

  enqueue_at-IsValid :
      (i calls : ℕ) (notified : Notified) (frame : OutgoingFrame)
      → i < max_clients
      → (client_at r.clients i).active ≡ true
      → IsValid (enqueue_at (record r { calls = calls }) i (client_at r.clients i) notified frame).1
  unfolding enqueue_at
  enqueue_at-IsValid i calls notified frame inside on =
      let c = at_slot i inside in
      let old = client_at r.clients i in
      let overflow =
        same-IsValid v i inside (record old { outgoing_failed = true; ready = false }) calls
          (record {
            counted = c.counted;
            bounded = c.bounded;
            emptied = c.emptied;
            waits = λ off. refl;
            id_given = c.id_given;
          })
          refl refl refl in
      ground (arith, calls-IsValid calls v, overflow, appended)
    where
      appended :
          (leb max_outgoing_frames (client_at r.clients i).outgoing_count) ≡ false
          → IsValid (
              store
                (record r { calls = calls })
                i
                (record (client_at r.clients i) {
                  outgoing = (client_at r.clients i).outgoing ++ frame ∷ [];
                  outgoing_count = (client_at r.clients i).outgoing_count + 1;
                }))
      appended room =
          let c = at_slot i inside in
          same-IsValid v i inside _ calls
            (record {
              counted =
                  omega
                    (arith, c.counted, length-append (client_at r.clients i).outgoing (frame ∷ []));
              bounded = ground arith;
              emptied = λ off. absurd (ground arith);
              waits = c.waits;
              id_given = c.id_given;
            })
            refl refl refl

  pub queue_frame-IsValid :
      (os : Os) (client_id type : ℕ) (payload : List ℕ)
      → IsValid (queue_frame os r client_id type payload).1
  unfolding queue_frame
  queue_frame-IsValid os client_id type payload =
      elim (find_index-cases (is_ready client_id) r.clients) [
        | inl (e, _) ↦ rw (e, queue_frame) (ground (arith, v, calls-IsValid (r.calls + 1) v))
        | inr (i, e, inside, hit) ↦
            rw (e, queue_frame)
              (ground (
                arith,
                v,
                calls-IsValid (r.calls + 1) v,
                enqueue_at-IsValid i (r.calls + 2) (os.eventfd_write (r.calls + 1))
                    (record { type = type; payload = payload }) (omega (arith, v.slots, inside))
                    (is_ready-active client_id (client_at r.clients i) hit),
              ))
      ]

  pub send_text-IsValid :
      (os : Os) (client_id : ℕ) (message : List ℕ) → IsValid (send_text os r client_id message).1
  unfolding send_text
  send_text-IsValid os client_id message =
      ground (arith, v, queue_frame-IsValid os client_id 4 message)

  -- The slot that a new client takes.
  admit-IsValid :
      (i fd : ℕ) (connection : Connection) (username : List ℕ)
      → i < max_clients
      → is_free (client_at r.clients i) ≡ true
      → count (is_named username) r.clients ≡ 0
      → r.next_client_id + 1 < u64_mod
      → IsValid (admit r i connection fd username (allocate_client_id r.next_client_id))
  admit-IsValid i fd connection username inside free unnamed small =
      rw (allocate_client_id_lem r.next_client_id v.counter small) (
        put-IsValid v i inside new (r.next_client_id + 1) (r.calls + 1)
          (record {
            counted = c.counted;
            bounded = c.bounded;
            emptied = λ off. absurd (ground arith);
            waits = λ off. refl;
            id_given = λ on. v.counter;
          })
          (λ on. omega arith) (omega arith) (omega arith) id_ok name_ok)
    where
      old : Client
      old = client_at r.clients i

      c : IsClient old
      c = at_slot i inside

      new : Client
      new = admitted old connection fd r.next_client_id username

      id_ok : (k : ℕ) → count (has_id k) r.clients + bit (has_id k new) ≤ 1 + bit (has_id k old)
      id_ok k = elim (ℕ_discrete r.next_client_id k) [
        | yes same ↦ omega (
          arith,
          fresh_id r.next_client_id k r.clients (omega (arith, same)) v.each,
          bit-le (has_id k new),
        )
        | no other ↦ omega (arith, v.ids k, ap bit (has_id-ne k new other))
      ]

      name_ok :
          (name : List ℕ)
          → count (is_named name) r.clients + bit (is_named name new) ≤ 1 + bit (is_named name old)
      name_ok name = elim (Bool-cases (str_eq username name)) [
        | inl same ↦
            rw (← str_eq-eq username name same)
              (omega (arith, unnamed, bit-le (is_named username new)))
        | inr other ↦ omega (arith, v.names name, ap bit (is_named-ne name new other))
      ]

  after_eventfd :
      (i : ℕ) (connection : Connection) (username : List ℕ) (o : Result ℕ)
      → ((fd : ℕ)
          → IsValid (admit r i connection fd username (allocate_client_id r.next_client_id)))
      → IsValid (elim o as (λ _. Registry) [
        | err e ↦ record r { calls = r.calls + 1 }
        | ok fd ↦ admit r i connection fd username (allocate_client_id r.next_client_id)
      ])
  after_eventfd i connection username (err e) h = calls-IsValid (r.calls + 1) v
  after_eventfd i connection username (ok fd) h = h fd

  pub add_client-IsValid :
      (os : Os) (connection : Connection) (username : List ℕ)
      → r.next_client_id + 1 < u64_mod
      → IsValid (add_client os r connection username).1
  unfolding add_client
  add_client-IsValid os connection username small =
      elim (find_index-cases (is_named username) r.clients) [
        | inr (i, e, _, _) ↦ rw (e, add_client) (ground (arith, v))
        | inl (e, unnamed) ↦ elim (find_index-cases is_free r.clients) [
          | inl (f, _) ↦ rw (e, f, add_client) (ground (arith, v))
          | inr (i, f, inside, free) ↦
              rw (e, f, add_client)
                (ground (
                  arith,
                  v,
                  after_eventfd i connection username (os.eventfd r.calls) (λ fd.
                      admit-IsValid i fd connection username (omega (arith, v.slots, inside)) free
                        unnamed small),
                ))
        ]
      ]
