-- ===== src/Registry/Ids.antt =====
-- Who is connected: the ids in the table of clients.
use cipher_chat.Prelude.{
  ℕ, ◌+◌, ◌<◌, ◌≡◌, refl, ap, inl, inr, true, false, List, [], ◌∷◌, ◌++◌, arith, leb, length,
  get_elem?-eq-get_or,
}
use cipher_chat.Prelude.Table.{bit, count, count-set}
use cipher_chat.Registry.{
  Client, Registry, Os, OutgoingFrame, Notified, max_clients, zero_client, zero_key, client_at,
  cleared, has_id, is_ready, store, remove_client, enqueue_at, queue_frame,
}
use cipher_chat.Registry.Invariant.{IsValid}
use cipher_chat.Registry.Preserve.{find_index-cases}

-- No frame that is queued changes who is connected.
same-count :
    (r : Registry) (i calls k : ℕ) (new : Client)
    → i < length r.clients
    → has_id k new ≡ has_id k (client_at r.clients i)
    → count (has_id k) (store (record r { calls = calls }) i new).clients
      ≡ count (has_id k) r.clients
same-count r i calls k new inside same =
    let old = client_at r.clients i in
    let at = get_elem?-eq-get_or r.clients i zero_client inside in
    omega (arith, count-set (has_id k) r.clients i new old at, ap bit same)

enqueue_at-count :
    (r : Registry) (i calls k : ℕ) (notified : Notified) (frame : OutgoingFrame)
    → i < length r.clients
    → count
        (has_id k)
        (enqueue_at (record r { calls = calls }) i (client_at r.clients i) notified frame).1.clients
      ≡ count (has_id k) r.clients
unfolding enqueue_at has_id
enqueue_at-count r i calls k notified frame inside =
    let c = client_at r.clients i in
    ground (
      arith,
      same-count r i calls k (record c { outgoing_failed = true; ready = false }) inside refl,
      same-count r i calls k
          (record c { outgoing = c.outgoing ++ frame ∷ []; outgoing_count = c.outgoing_count + 1 })
          inside refl,
    )

pub queue_frame-count :
    (os : Os) (r : Registry) (client_id type : ℕ) (payload : List ℕ) (k : ℕ)
    → count (has_id k) (queue_frame os r client_id type payload).1.clients
      ≡ count (has_id k) r.clients
unfolding queue_frame
queue_frame-count os r client_id type payload k =
    elim (find_index-cases (is_ready client_id) r.clients) [
      | inl (e, _) ↦ rw (e, queue_frame) (ground arith)
      | inr (i, e, inside, hit) ↦
          rw (e, queue_frame)
            (ground (
              arith,
              enqueue_at-count r i (r.calls + 2) k (os.eventfd_write (r.calls + 1))
                  (record { type = type; payload = payload }) inside,
            ))
    ]

-- The slot of a client is freed, and no other client has its id.
pub remove_client-count :
    {r : Registry} (index k : ℕ)
    → IsValid r
    → index < max_clients
    → has_id k (client_at r.clients index) ≡ true
    → count (has_id k) (remove_client r index).1.clients ≡ 0
unfolding remove_client has_id
remove_client-count {r} index k v inside holds =
    let old = client_at r.clients index in
    let new : Client = record (cleared old) { public_key = zero_key } in
    let at = get_elem?-eq-get_or r.clients index zero_client (omega (arith, v.slots)) in
    let active : old.active ≡ true = ground arith in
    let within : leb max_clients index ≡ false = ground arith in
    rw (within, active)
      (omega (arith, count-set (has_id k) r.clients index new old at, ap bit holds, v.ids k))
