-- ===== src/Transport/Send.antt =====
-- What has gone out when a send returns.
use cipher_chat.Prelude.{
  ℕ, ◌+◌, ◌-◌, ◌%◌, ◌<◌, ◌≡◌, refl, sym, ap, ◌∙◌, subst, true, false, List, [], ◌∷◌, ◌++◌, arith,
  ltb, length, take, drop, take-append-drop,
}
use mathlib.Core.List.{append_assoc, append-nil}
use cipher_chat.Status.{ok, err}
use cipher_chat.Wire.{u32_mod, frame_max_size, write_u32, is_valid_frame_type}
use cipher_chat.Transport.{
  WriteEvent, accepted, retry, ready, poll_failed, invalid_descriptor, closed_by_peer, write_broken,
  Sent, unfinished, sent, send_loop, send_all, then_send, send_payload, then_return, send_frame,
}

-- Everything is out when a send succeeds, and never more than a prefix.
abbrev pub Wrote : Sent → List ℕ → Type 0
Wrote (unfinished out) bytes = (left : List ℕ) × (out ++ left ≡ bytes)
Wrote (sent (ok u) out failed es) bytes = (failed ≡ false) × (out ≡ bytes)
Wrote (sent (err e) out failed es) bytes = (left : List ℕ) × (out ++ left ≡ bytes)

split_again : (out left : List ℕ) (n : ℕ) → (out ++ take n left) ++ drop n left ≡ out ++ left
split_again out left n =
    append_assoc out (take n left) (drop n left) ∙ ap (λ bs. out ++ bs) (take-append-drop n left)

send_loop-Wrote :
    (total : ℕ) (left out : List ℕ) (es : List WriteEvent) (bytes : List ℕ)
    → out ++ left ≡ bytes
    → Wrote (send_loop total left out es) bytes
unfolding send_loop
send_loop-Wrote total [] out es bytes e = (refl, sym (append-nil out) ∙ e)
send_loop-Wrote total (b ∷ bs) out [] bytes e = (b ∷ bs, e)
send_loop-Wrote total (b ∷ bs) out (accepted n ∷ es) bytes e =
    send_loop-Wrote (total + length (take n (b ∷ bs))) (drop n (b ∷ bs)) (out ++ take n (b ∷ bs)) es
      bytes (split_again out (b ∷ bs) n ∙ e)
send_loop-Wrote total (b ∷ bs) out (retry ready ∷ es) bytes e =
    send_loop-Wrote total (b ∷ bs) out es bytes e
send_loop-Wrote total (b ∷ bs) out (retry (poll_failed x) ∷ es) bytes e = (b ∷ bs, e)
send_loop-Wrote total (b ∷ bs) out (retry invalid_descriptor ∷ es) bytes e = (b ∷ bs, e)
send_loop-Wrote total (b ∷ bs) out (closed_by_peer ∷ es) bytes e = (b ∷ bs, e)
send_loop-Wrote total (b ∷ bs) out (write_broken x ∷ es) bytes e = (b ∷ bs, e)

longer : (s : Sent) (bytes more : List ℕ) → Wrote s bytes → Wrote (then_send s more) (bytes ++ more)
unfolding then_send send_all
longer (unfinished out) bytes more (left, e) =
    (left ++ more, sym (append_assoc out left more) ∙ ap (λ bs. bs ++ more) e)
longer (sent (err x) out failed es) bytes more (left, e) =
    (left ++ more, sym (append_assoc out left more) ∙ ap (λ bs. bs ++ more) e)
longer (sent (ok u) out failed es) bytes more (f, e) =
    rw f (send_loop-Wrote 0 more out es (bytes ++ more) (ap (λ bs. bs ++ more) e))

with_payload :
    (s : Sent) (bytes payload : List ℕ)
    → Wrote s bytes
    → Wrote (send_payload s payload) (bytes ++ payload)
unfolding send_payload
with_payload s bytes [] h = subst (Wrote s) (sym (append-nil bytes)) h
with_payload s bytes (b ∷ bs) h = longer s bytes (b ∷ bs) h

returned : (n : ℕ) (s : Sent) (bytes : List ℕ) → Wrote s bytes → Wrote (then_return n s) bytes
unfolding then_return
returned n (unfinished out) bytes h = h
returned n (sent (err x) out failed es) bytes h = h
returned n (sent (ok u) out failed es) bytes h = h

pub type-byte : (type : ℕ) → is_valid_frame_type type ≡ true → type % 256 ≡ type
unfolding is_valid_frame_type
type-byte type valid = ground arith

pub whole_length :
    (type : ℕ) (payload : List ℕ)
    → length payload < frame_max_size
    → (1 + length payload) % u32_mod ≡ length (type ∷ payload)
whole_length type payload small = omega arith

-- `send_frame` on a connection that has not failed, for a type and a payload that it takes: when it
-- succeeds, what has gone out is the length, the type and the payload; when it fails or has not
-- returned, a prefix of that.
pub send_frame-Wrote :
    (type : ℕ) (payload : List ℕ) (es : List WriteEvent)
    → is_valid_frame_type type ≡ true
    → length payload < frame_max_size
    → Wrote
        (send_frame false type payload es)
        (write_u32 (length (type ∷ payload)) ++ (type ∷ payload))
unfolding send_frame send_all
send_frame-Wrote type payload es valid small =
    let n = (1 + length payload) % u32_mod in
    let first = send_loop-Wrote 0 (write_u32 n) [] es (write_u32 n) refl in
    let all =
      returned (1 + length payload) _ _
        (with_payload _ _ payload (longer _ _ ((type % 256) ∷ []) first)) in
    let small_enough : ltb (frame_max_size - 1) (length payload) ≡ false = ground arith in
    rw (valid, small_enough)
      (subst (Wrote _)
        (append_assoc (write_u32 n) ((type % 256) ∷ []) payload
          ∙ ap (λ k. write_u32 k ++ ((type % 256) ∷ payload)) (whole_length type payload small)
          ∙ ap (λ k. write_u32 (length (type ∷ payload)) ++ (k ∷ payload)) (type-byte type valid))
        all)
