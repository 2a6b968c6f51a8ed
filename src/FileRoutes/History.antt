-- ===== src/FileRoutes/History.antt =====
-- Sequences of calls on the table of routes. The calls of all clients' threads interleave, each under
-- `routes_mutex`, so a history is any sequence of them.
use cipher_chat.Prelude.{
  ℕ, ◌+◌, ◌≤◌, ◌<◌, ◌≡◌, ap, ◌∙◌, ◌≢◌, Bool, true, false, none, some, List, [], ◌∷◌, arith, ◌==◌,
  if◌then◌else◌,
}
use cipher_chat.Wire.{u64_mod}
use cipher_chat.FileRoutes.{
  FileRoute, RouteTable, invalid_client_id, init, add, accept_chunk, quarantine,
  mark_forward_failed, finish, abort_client, copy_endpoint, finish_ready, finish_incomplete,
}
use cipher_chat.FileRoutes.Slots.{view}
use cipher_chat.FileRoutes.Invariant.{IsValid, init-IsValid}
use cipher_chat.FileRoutes.Preserve.{
  add-IsValid, accept_chunk-IsValid, quarantine-IsValid, mark_forward_failed-IsValid,
  finish-IsValid,
}
use cipher_chat.FileRoutes.Abort.{abort_client-IsValid}
use cipher_chat.FileRoutes.Map.{accept_chunk_refines, finish_refines, chunk_spec, finish_spec}

-- A call, for a sender that has logged in, as the server makes it: a transfer that is not discarded
-- goes to another client, and its size fits in 64 bits.
pub data Step (t : RouteTable) : RouteTable → Type 0 where
  call_add :
      (s x target expected : ℕ) (discard : Bool)
      → s ≢ invalid_client_id
      → expected < u64_mod
      → (discard ≡ false → s ≢ target)
      → Step t (add t s x target expected discard).table
  call_accept_chunk : (s x n : ℕ) → s ≢ invalid_client_id → Step t (accept_chunk t s x n).2
  call_quarantine :
      (s x : ℕ) (keep : Bool) → s ≢ invalid_client_id → Step t (quarantine t s x keep).2
  call_mark_forward_failed :
      (s x id : ℕ) → s ≢ invalid_client_id → Step t (mark_forward_failed t s x id).1
  call_finish :
      (s x : ℕ) (validate : Bool) → s ≢ invalid_client_id → Step t (finish t s x validate).2
  call_abort_client : (c room : ℕ) → Step t (abort_client t c room).1

-- The tables that calls lead to from the one of `file_routes_init`.
pub data Reachable : RouteTable → Type 0 where
  started : Reachable init
  stepped : {t u : RouteTable} → Reachable t → Step t u → Reachable u

Step-IsValid : {t u : RouteTable} → Step t u → IsValid t → IsValid u
Step-IsValid (call_add s x target expected discard given big other) v =
    add-IsValid v s x target expected given big discard other
Step-IsValid (call_accept_chunk s x n given) v = accept_chunk-IsValid v s x given n
Step-IsValid (call_quarantine s x keep given) v = quarantine-IsValid v s x given keep
Step-IsValid (call_mark_forward_failed s x id given) v = mark_forward_failed-IsValid v s x given id
Step-IsValid (call_finish s x validate given) v = finish-IsValid v s x given validate
Step-IsValid (call_abort_client c room) v = abort_client-IsValid c room v

-- However the calls interleave after `file_routes_init`, of senders with ids other than 0, with
-- sizes of 64 bits and with no transfer to its own sender but a discarded one, the table is valid:
-- it has 400 slots, whose numbers fit in their types, no transfer twice and no outbound id twice.
pub Reachable-IsValid : {t : RouteTable} → Reachable t → IsValid t
Reachable-IsValid started = init-IsValid
Reachable-IsValid (stepped reach step) = Step-IsValid step (Reachable-IsValid reach)

-- The table after the chunks of one transfer.
unfoldable pub accept_chunks : RouteTable → ℕ → ℕ → List ℕ → RouteTable
accept_chunks t s x [] = t
accept_chunks t s x (n ∷ ns) = accept_chunks (accept_chunk t s x n).2 s x ns

abbrev pub sum : List ℕ → ℕ
sum [] = 0
sum (n ∷ ns) = n + sum ns

abbrev grown : FileRoute → ℕ → FileRoute
grown r n = record r { forwarded_size = r.forwarded_size + n }

accept_one :
    {t : RouteTable} (s x n : ℕ) {r : FileRoute}
    → IsValid t
    → view t.routes s x ≡ some r
    → r.discard ≡ false
    → r.forwarded_size + n ≤ r.expected_size
    → view (accept_chunk t s x n).2.routes s x ≡ some (grown r n)
unfolding chunk_spec
accept_one {t} s x n {r} v e d fits =
    ap (λ o. o.2) (accept_chunk_refines s x n v).0 ∙ rw (e, d) (ground arith)

accept_all :
    {t : RouteTable} (s x : ℕ) (ns : List ℕ) {r : FileRoute}
    → s ≢ invalid_client_id
    → IsValid t
    → view t.routes s x ≡ some r
    → r.discard ≡ false
    → r.forwarded_size + sum ns ≤ r.expected_size
    → IsValid (accept_chunks t s x ns)
      × (view (accept_chunks t s x ns).routes s x ≡ some (grown r (sum ns)))
unfolding accept_chunks
accept_all s x [] {r} given v e d fits = (
  v,
  e
      ∙ ap (λ n. some (record r { forwarded_size = n })) {x = r.forwarded_size}
          {y = r.forwarded_size + 0} (omega arith),
)
accept_all {t} s x (n ∷ ns) {r} given v e d fits =
    let (w, f) =
      accept_all {t = (accept_chunk t s x n).2} s x ns {r = grown r n} given
        (accept_chunk-IsValid v s x given n) (accept_one s x n {r = r} v e d (omega arith)) d
        (omega arith) in
    (
      w,
      f
          ∙ ap (λ n. some (record r { forwarded_size = n })) {x = r.forwarded_size + n + sum ns}
              {y = r.forwarded_size + (n + sum ns)} (omega arith),
    )

result_of :
    (r : FileRoute) (n : ℕ)
    → r.discard ≡ false
    → (finish_spec true (some (grown r n))).0
      ≡ (if r.forwarded_size + n == r.expected_size then finish_ready else finish_incomplete)
unfolding finish_spec
result_of r n d = ground arith

endpoint_of :
    (r : FileRoute) (n : ℕ)
    → r.discard ≡ false
    → (finish_spec true (some (grown r n))).1 ≡ copy_endpoint r
unfolding finish_spec
endpoint_of r n d = ground arith

removed :
    (r : FileRoute) (n : ℕ) → r.discard ≡ false → (finish_spec true (some (grown r n))).2 ≡ none
unfolding finish_spec
removed r n d = ground arith

-- In a valid table, a transfer that forwards, of a sender with an id other than 0, and whose chunks
-- stay within the declared size, ends well exactly when they add up to it: its end is
-- `finish_ready` if the sum is the declared size and `finish_incomplete` if it is less, with its
-- endpoint, and its entry is gone.
pub finish-accept_chunks :
    {t : RouteTable} (s x : ℕ) (ns : List ℕ) {r : FileRoute}
    → s ≢ invalid_client_id
    → IsValid t
    → view t.routes s x ≡ some r
    → r.discard ≡ false
    → r.forwarded_size + sum ns ≤ r.expected_size
    → let (result, endpoint, u) = finish (accept_chunks t s x ns) s x true in
      (result ≡ (
        if r.forwarded_size + sum ns == r.expected_size then finish_ready else finish_incomplete))
      × (endpoint ≡ copy_endpoint r)
      × (view u.routes s x ≡ none)
unfolding finish_spec
finish-accept_chunks {t} s x ns {r} given v e d fits =
    let (w, f) = accept_all s x ns given v e d fits in
    let law = (finish_refines s x true w).0 ∙ ap (finish_spec true) f in
    (
      ap (λ o. o.0) law ∙ result_of r (sum ns) d,
      ap (λ o. o.1) law ∙ endpoint_of r (sum ns) d,
      ap (λ o. o.2) law ∙ removed r (sum ns) d,
    )
