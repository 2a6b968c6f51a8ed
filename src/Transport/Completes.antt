-- ===== src/Transport/Completes.antt =====
-- The sends on a connection whose writes go forward: they return their count, with everything gone out.
use cipher_chat.Prelude.{
  ℕ, zero, suc, ◌+◌, ◌-◌, ◌%◌, ◌≤◌, ◌<◌, ◌≡◌, sym, ap, ◌∙◌, subst, true, false, List, [], ◌∷◌, ◌++◌,
  arith, ltb, length, length-drop, length-append, take, drop, take-append-drop,
}
use mathlib.Core.List.{append_assoc, append-nil}
use cipher_chat.Status.{ok}
use cipher_chat.Wire.{u32_mod, frame_max_size, write_u32, is_valid_frame_type}
use cipher_chat.Transport.{
  WriteEvent, accepted, retry, ready, poll_failed, invalid_descriptor, closed_by_peer, write_broken,
  Sent, sent, send_loop, send_all, then_send, send_payload, then_return, send_frame,
}
use cipher_chat.Transport.Send.{type-byte, whole_length}

-- Writes that take at least one byte, or ask for a retry that the poll grants.
abbrev pub GoesOn : List WriteEvent → Type 0
GoesOn [] = Unit {0}
GoesOn (accepted n ∷ es) = (1 ≤ n) × GoesOn es
GoesOn (retry ready ∷ es) = GoesOn es
GoesOn (_ ∷ es) = ⊥

-- How many writes take something.
abbrev pub writes : List WriteEvent → ℕ
writes [] = 0
writes (accepted n ∷ es) = suc (writes es)
writes (_ ∷ es) = writes es

-- The count is returned, everything is out, and there was a write for each byte.
abbrev pub AllSent : Sent → ℕ → List ℕ → ℕ → Type 0
AllSent s count bytes enough =
    (es : List WriteEvent) × (s ≡ sent (ok count) bytes false es)
    × GoesOn es
    × (enough ≤ writes es + length bytes)

send_loop-AllSent :
    (total : ℕ) (left out : List ℕ) (es : List WriteEvent) (enough : ℕ)
    → GoesOn es
    → length left ≤ writes es
    → enough ≤ writes es + length out
    → AllSent (send_loop total left out es) (total + length left) (out ++ left) enough
unfolding send_loop
send_loop-AllSent total [] out es enough g w h = (
  es,
  ap (λ bs. sent (ok total) bs false es) (sym (append-nil out))
      ∙ ap (λ n. sent (ok n) (out ++ []) false es) {x = total} {y = total + 0} (omega arith),
  g,
  omega (arith, length-append out []),
)
send_loop-AllSent total (b ∷ bs) out [] enough g w h = elim w [ ]
send_loop-AllSent total (b ∷ bs) out (accepted zero ∷ es) enough g w h = absurd (ground arith)
send_loop-AllSent total (b ∷ bs) out (accepted (suc n) ∷ es) enough g w h =
    let written = b ∷ take n bs in
    let rest = send_loop (total + length written) (drop n bs) (out ++ written) es in
    let sum : total + length written + length (drop n bs) ≡ total + length (b ∷ bs) =
      omega (arith, ap length (take-append-drop n bs), length-append (take n bs) (drop n bs)) in
    subst (λ k. AllSent rest k (out ++ (b ∷ bs)) enough) sum
      (subst (λ all. AllSent rest (total + length written + length (drop n bs)) all enough)
        (append_assoc out written (drop n bs)
          ∙ ap (λ more. out ++ (b ∷ more)) (take-append-drop n bs))
        (send_loop-AllSent (total + length written) (drop n bs) (out ++ written) es enough g.1
          (omega (arith, length-drop n bs)) (omega (arith, length-append out written))))
send_loop-AllSent total (b ∷ bs) out (retry ready ∷ es) enough g w h =
    send_loop-AllSent total (b ∷ bs) out es enough g w h
send_loop-AllSent total (b ∷ bs) out (retry (poll_failed x) ∷ es) enough g w h = elim g [ ]
send_loop-AllSent total (b ∷ bs) out (retry invalid_descriptor ∷ es) enough g w h = elim g [ ]
send_loop-AllSent total (b ∷ bs) out (closed_by_peer ∷ es) enough g w h = elim g [ ]
send_loop-AllSent total (b ∷ bs) out (write_broken x ∷ es) enough g w h = elim g [ ]

after :
    (s : Sent) (count : ℕ) (bytes more : List ℕ) (enough : ℕ)
    → length bytes + length more ≤ enough
    → AllSent s count bytes enough
    → AllSent (then_send s more) (length more) (bytes ++ more) enough
unfolding then_send send_all
after s count bytes more enough room (es, e, g, w) = rw e (
    subst (λ n. AllSent (send_loop 0 more bytes es) n (bytes ++ more) enough) {x = 0 + length more}
      {y = length more} (omega arith) (send_loop-AllSent 0 more bytes es enough g (omega arith) w))

with_payload :
    (s : Sent) (count : ℕ) (bytes payload : List ℕ) (enough : ℕ)
    → length bytes + length payload ≤ enough
    → AllSent s count bytes enough
    → (last : ℕ) × AllSent (send_payload s payload) last (bytes ++ payload) enough
unfolding send_payload
with_payload s count bytes [] enough room h =
    (count, subst (λ all. AllSent s count all enough) (sym (append-nil bytes)) h)
with_payload s count bytes (b ∷ bs) enough room h =
    (length (b ∷ bs), after s count bytes (b ∷ bs) enough room h)

returned :
    (n : ℕ) (s : Sent) (count : ℕ) (bytes : List ℕ) (enough : ℕ)
    → AllSent s count bytes enough
    → AllSent (then_return n s) n bytes enough
unfolding then_return
returned n s count bytes enough (es, e, g, w) = (es, ap (then_return n) e, g, w)

-- `send_frame` returns the number of the bytes of the type and the payload, with the length, the type
-- and the payload gone out, on a connection that has not failed and for a type and a payload that it
-- takes, if no write fails and at least as many of them take a byte or more as there are bytes.
pub send_frame-AllSent :
    (type : ℕ) (payload : List ℕ) (es : List WriteEvent)
    → is_valid_frame_type type ≡ true
    → length payload < frame_max_size
    → GoesOn es
    → 5 + length payload ≤ writes es
    → AllSent
        (send_frame false type payload es)
        (length (type ∷ payload))
        (write_u32 (length (type ∷ payload)) ++ (type ∷ payload))
        (writes es)
unfolding send_frame send_all write_u32
send_frame-AllSent type payload es valid small g w =
    let n = (1 + length payload) % u32_mod in
    let first = send_loop-AllSent 0 (write_u32 n) [] es (writes es) g (omega arith) (omega arith) in
    let typed = after _ _ _ ((type % 256) ∷ []) (writes es) (omega arith) first in
    let (last, body) = with_payload _ _ _ payload (writes es) (omega arith) typed in
    let all = returned (1 + length payload) _ last _ (writes es) body in
    let count : 1 + length payload ≡ length (type ∷ payload) = omega arith in
    let whole =
      then_return (1 + length payload)
        (send_payload (then_send (send_loop 0 (write_u32 n) [] es) ((type % 256) ∷ [])) payload) in
    let small_enough : ltb (frame_max_size - 1) (length payload) ≡ false = ground arith in
    rw (valid, small_enough)
      (subst
        (λ k. AllSent whole k (write_u32 (length (type ∷ payload)) ++ (type ∷ payload)) (writes es))
        count
        (subst (λ bytes. AllSent whole (1 + length payload) bytes (writes es))
          (append_assoc (write_u32 n) ((type % 256) ∷ []) payload
            ∙ ap (λ k. write_u32 k ++ ((type % 256) ∷ payload)) (whole_length type payload small)
            ∙ ap (λ k. write_u32 (length (type ∷ payload)) ++ (k ∷ payload)) (type-byte type valid))
          all))
