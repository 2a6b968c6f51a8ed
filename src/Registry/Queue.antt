-- ===== src/Registry/Queue.antt =====
-- The queues of outgoing frames, seen as a map from client ids to lists, oldest frame first.
use cipher_chat.Prelude.{
  ℕ, ◌+◌, ◌-◌, ◌<◌, ◌≡◌, refl, sym, ap, ◌∙◌, ◌≢◌, inl, inr, true, false, not, ◌||◌, Option, none,
  some, List, [], ◌∷◌, ◌++◌, arith, leb, ltb, ◌==◌, if◌then◌else◌, length, set, get_elem?-eq-get_or,
  Bool-cases, if_cases,
}
use cipher_chat.Prelude.Table.{bit, find, find-set_new, find-set_other, find_unique}
use cipher_chat.Status.{Errno, Result, ok, err, enobufs, einval, enoent, emsgsize, enomem}
use cipher_chat.Wire.{frame_max_size, is_valid_frame_type}
use cipher_chat.Registry.{
  Client, Registry, Os, OutgoingFrame, Notified, written, would_block, failed, max_outgoing_frames,
  invalid_client_id, zero_client, client_at, has_id, is_ready, enqueue_at, queue_frame, dequeue_at,
  take_outgoing_frame,
}
use cipher_chat.Registry.Invariant.{IsValid}
use cipher_chat.Registry.Preserve.{find_index-cases}

abbrev frames_of : Option Client → List OutgoingFrame
frames_of none = []
frames_of (some c) = c.outgoing

-- The client with an id, if there is one, and its frames.
abbrev pub client : Registry → ℕ → Option Client
client r k = find (has_id k) r.clients

abbrev pub pending : Registry → ℕ → List OutgoingFrame
pending r k = frames_of (client r k)

is_ready-has_id : (k : ℕ) (c : Client) → is_ready k c ≡ true → has_id k c ≡ true
unfolding is_ready has_id
is_ready-has_id k c h = ground arith

has_id-other : (k j : ℕ) (c : Client) → has_id k c ≡ true → k ≢ j → has_id j c ≡ false
unfolding has_id
has_id-other k j c h ne = ground arith

has_id-new :
    (k : ℕ) (old new : Client)
    → new.active ≡ old.active
    → new.id ≡ old.id
    → has_id k old ≡ true
    → has_id k new ≡ true
unfolding has_id
has_id-new k old new a i h = rw (a, i) h

module _ {r : Registry} (v : IsValid r) (k i : ℕ) (inside : i < length r.clients)
    (hit : has_id k (client_at r.clients i) ≡ true) where
  here : client r k ≡ some (client_at r.clients i)
  here =
      find_unique (has_id k) r.clients i (client_at r.clients i)
        (get_elem?-eq-get_or r.clients i zero_client inside) hit (v.ids k)

  -- A write that keeps the client's id changes its queue and no other.
  module _ (new : Client) (same : has_id k new ≡ true) where
    written_here : find (has_id k) (set r.clients i new) ≡ some new
    written_here =
        find-set_new (has_id k) r.clients i new (client_at r.clients i)
          (get_elem?-eq-get_or r.clients i zero_client inside) (omega (arith, v.ids k, ap bit hit))
          same

    written_there :
        (j : ℕ) → k ≢ j → find (has_id j) (set r.clients i new) ≡ find (has_id j) r.clients
    written_there j ne =
        find-set_other (has_id j) r.clients i new (client_at r.clients i)
          (get_elem?-eq-get_or r.clients i zero_client inside)
          (has_id-other k j (client_at r.clients i) hit ne) (has_id-other k j new same ne)

-- The frames of every other client.
abbrev pub OthersKept : Registry → Registry → ℕ → Type 0
OthersKept r r' k = (j : ℕ) → k ≢ j → client r' j ≡ client r j

-- What a call that queues a frame does, by its result.
abbrev pub Queued : Registry → ℕ → OutgoingFrame → Result (Unit {0}) × Registry → Type 0
Queued r k frame (ok u, r') = pending r' k ≡ pending r k ++ frame ∷ []
Queued r k frame (err e, r') = pending r' k ≡ pending r k

-- The two ends of `enqueue_at` behind a wake-up that was written.
module _ {r : Registry} (k i calls : ℕ) (frame : OutgoingFrame) (v : IsValid r)
    (inside : i < length r.clients) (hit : has_id k (client_at r.clients i) ≡ true) where
  abbrev old : Client
  old = client_at r.clients i

  abbrev refused : Client
  refused = record old { outgoing_failed = true; ready = false }

  abbrev longer : Client
  longer = record old {
    outgoing = old.outgoing ++ frame ∷ [];
    outgoing_count = old.outgoing_count + 1;
  }

  overflowed :
      (frames_of (find (has_id k) (set r.clients i refused)) ≡ pending r k)
      × ((j : ℕ) → k ≢ j → find (has_id j) (set r.clients i refused) ≡ client r j)
  unfolding has_id
  overflowed = (
    ap frames_of (written_here v k i inside hit refused hit)
        ∙ sym (ap frames_of (here v k i inside hit)),
    written_there v k i inside hit refused hit,
  )

  appended :
      (frames_of (find (has_id k) (set r.clients i longer)) ≡ pending r k ++ frame ∷ [])
      × ((j : ℕ) → k ≢ j → find (has_id j) (set r.clients i longer) ≡ client r j)
  unfolding has_id
  appended = (
    ap frames_of (written_here v k i inside hit longer hit)
        ∙ sym (ap (λ c. frames_of c ++ frame ∷ []) (here v k i inside hit)),
    written_there v k i inside hit longer hit,
  )

  enqueue_at-Queued :
      (notified : Notified)
      → let out = enqueue_at (record r { calls = calls }) i old notified frame in
        Queued r k frame out × OthersKept r out.1 k
  unfolding enqueue_at
  enqueue_at-Queued (failed e) = (refl, λ j ne. refl)
  enqueue_at-Queued written = elim (Bool-cases (leb max_outgoing_frames old.outgoing_count)) [
    | inl full ↦ rw (full, enqueue_at) overflowed
    | inr room ↦ rw (room, enqueue_at) appended
  ]
  enqueue_at-Queued would_block = elim (Bool-cases (leb max_outgoing_frames old.outgoing_count)) [
    | inl full ↦ rw (full, enqueue_at) overflowed
    | inr room ↦ rw (room, enqueue_at) appended
  ]

-- In a valid table, a call that succeeds puts its frame behind those that wait for the client, one
-- that fails leaves them as they are, and no other client is touched.
pub queue_frame-Queued :
    (os : Os) {r : Registry} (k type : ℕ) (payload : List ℕ)
    → IsValid r
    → let out = queue_frame os r k type payload in
      Queued r k (record { type = type; payload = payload }) out × OthersKept r out.1 k
unfolding queue_frame
queue_frame-Queued os {r} k type payload v = elim (find_index-cases (is_ready k) r.clients) [
  | inl (e, _) ↦ rw (e, queue_frame) (checked (err enoent, called) (same enoent (r.calls + 1)))
  | inr (i, e, inside, hit) ↦
      rw (e, queue_frame)
        (checked
          (enqueue_at (record r { calls = r.calls + 2 }) i (client_at r.clients i)
            (os.eventfd_write (r.calls + 1)) frame)
          (enqueue_at-Queued k i (r.calls + 2) frame v inside
            (is_ready-has_id k (client_at r.clients i) hit) (os.eventfd_write (r.calls + 1))))
]
  where
    frame : OutgoingFrame
    frame = record { type = type; payload = payload }

    called : Registry
    called = record r { calls = r.calls + 1 }

    Good : Result (Unit {0}) × Registry → Type 0
    Good out = Queued r k frame out × OthersKept r out.1 k

    same : (e : Errno) (calls : ℕ) → Good (err e, record r { calls = calls })
    same e calls = (refl, λ j ne. refl)

    -- The tests in front of the search.
    checked :
        (out : Result (Unit {0}) × Registry)
        → Good out
        → Good (
            if k == invalid_client_id || not (is_valid_frame_type type)
            then (err einval, r)
            else if ltb (frame_max_size - 1) (length payload)
            then (err emsgsize, r)
            else if not (os.malloc r.calls)
            then (err enomem, called)
            else out)
    checked out good =
        let allocated = if not (os.malloc r.calls) then (err enomem, called) else out in
        let sized =
          if ltb (frame_max_size - 1) (length payload) then (err emsgsize, r) else allocated in
        if_cases Good (k == invalid_client_id || not (is_valid_frame_type type)) (err einval, r)
          sized (λ _. same einval r.calls)
          λ _.
            if_cases Good (ltb (frame_max_size - 1) (length payload)) (err emsgsize, r) allocated
              (λ _. same emsgsize r.calls)
              λ _.
                if_cases Good (not (os.malloc r.calls)) (err enomem, called) out
                  (λ _. same enomem (r.calls + 1)) (λ _. good)

-- What a call that takes a frame does, by its result.
abbrev pub Taken : Registry → ℕ → Result (Option OutgoingFrame) × Registry → Type 0
Taken r k (ok none, r') = (pending r k ≡ []) × (r' ≡ r)
Taken r k (ok (some frame), r') = pending r k ≡ frame ∷ pending r' k
Taken r k (err e, r') = r' ≡ r

dequeue_at-Taken :
    {r : Registry} (v : IsValid r) (k i : ℕ)
    → i < length r.clients
    → has_id k (client_at r.clients i) ≡ true
    → (frames : List OutgoingFrame) → (client_at r.clients i).outgoing ≡ frames
    → let out = dequeue_at r i (client_at r.clients i) frames in
      Taken r k out × OthersKept r out.1 k
unfolding dequeue_at
dequeue_at-Taken v k i inside hit [] e =
    ((ap frames_of (here v k i inside hit) ∙ e, refl), λ j ne. refl)
dequeue_at-Taken {r} v k i inside hit (frame ∷ rest) e =
    let old = client_at r.clients i in
    let new : Client = record old { outgoing = rest; outgoing_count = old.outgoing_count - 1 } in
    (
      ap frames_of (here v k i inside hit)
          ∙ (e
              ∙ sym (
                  ap (λ c. frame ∷ frames_of c)
                    (written_here v k i inside hit new (has_id-new k old new refl refl hit)))),
      written_there v k i inside hit new (has_id-new k old new refl refl hit),
    )

-- In a valid table, taking a frame removes the oldest one that waits for the client; without one,
-- or on an error, it leaves what waits as it is. No other client is touched.
pub take_outgoing_frame-Taken :
    {r : Registry} (k : ℕ)
    → IsValid r
    → let out = take_outgoing_frame r k in Taken r k out × OthersKept r out.1 k
unfolding take_outgoing_frame
take_outgoing_frame-Taken {r} k v = elim (find_index-cases (has_id k) r.clients) [
  | inl (e, _) ↦ rw (e, take_outgoing_frame) (checked (err enoent, r) (same enoent))
  | inr (i, e, inside, hit) ↦
      let c = client_at r.clients i in
      let out = dequeue_at r i c c.outgoing in
      rw (e, take_outgoing_frame)
        (checked (if c.outgoing_failed then (err enobufs, r) else out) (
          if_cases Good c.outgoing_failed (err enobufs, r) out (λ _. same enobufs)
            (λ _. dequeue_at-Taken v k i inside hit c.outgoing refl)))
]
  where
    Good : Result (Option OutgoingFrame) × Registry → Type 0
    Good out = Taken r k out × OthersKept r out.1 k

    same : (e : Errno) → Good (err e, r)
    same e = (refl, λ j ne. refl)

    checked :
        (out : Result (Option OutgoingFrame) × Registry)
        → Good out
        → Good (if k == invalid_client_id then (err einval, r) else out)
    checked out good =
        if_cases Good (k == invalid_client_id) (err einval, r) out (λ _. same einval) (λ _. good)
