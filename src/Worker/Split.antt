-- ===== src/Worker/Split.antt =====
-- The loop against a reference that has the whole stream at hand.
use cipher_chat.Prelude.{
  ℕ, zero, suc, ◌+◌, ◌≤◌, ◌≡◌, refl, sym, ap, ◌∙◌, subst, inl, inr, Bool, false, List, [], ◌∷◌,
  ◌++◌, arith, ltb, if◌then◌else◌, length, take, drop, length-append, take-append, drop-append,
  drop-drop,
}
use mathlib.Core.List.{append-nil}
use cipher_chat.Wire.{read_u32}
use cipher_chat.Worker.{Host, Turn, Worker, goes_on, run, start_worker}
use cipher_chat.Worker.Framing.{Framed, IsReading, AllUndisturbed, Heard, run-Framed}

-- The frames at the head of a stream, each behind its length, up to the first that is not whole.
unfoldable pub split : ℕ → List ℕ → List (List ℕ)
split zero stream = []
split (suc fuel) stream =
    let n = read_u32 stream in
    let rest = split fuel (drop (4 + n) stream) in
    if ltb (length stream) (4 + n) then [] else take n (drop 4 stream) ∷ rest

read_u32-append : (head rest : List ℕ) → length head ≡ 4 → read_u32 (head ++ rest) ≡ read_u32 head
unfolding read_u32
read_u32-append (a ∷ b ∷ c ∷ d ∷ []) rest h = refl
read_u32-append (a ∷ b ∷ c ∷ d ∷ e ∷ es) rest h = absurd (omega arith)
read_u32-append (a ∷ b ∷ c ∷ []) rest h = absurd (omega arith)
read_u32-append (a ∷ b ∷ []) rest h = absurd (omega arith)
read_u32-append (a ∷ []) rest h = absurd (omega arith)
read_u32-append [] rest h = absurd (omega arith)

split-part : (fuel : ℕ) (w : Worker) → IsReading w → split fuel w.incoming ≡ []
unfolding split
split-part zero w reading = refl
split-part (suc fuel) w (inl (e, few)) = ground arith
split-part (suc fuel) w (inr (head, body, e, h, needed, lo, hi, few)) =
    ground (arith, ap length e, length-append head body, ap read_u32 e, read_u32-append head body h)

split-Framed :
    (fuel : ℕ) (fs : List (List ℕ)) (stream : List ℕ) (w : Worker)
    → length stream ≤ fuel
    → IsReading w
    → Framed fs stream w.incoming
    → split fuel stream ≡ fs
unfolding split
split-Framed fuel [] stream w enough reading e = ap (split fuel) e ∙ split-part fuel w reading
split-Framed zero (f ∷ fs) stream w enough reading (head, more, e, h, n, lo, hi, valid, framed) =
    absurd (omega (arith, ap length e, length-append head (f ++ more), length-append f more))
split-Framed (suc fuel) (f ∷ fs) stream w enough reading
      (head, more, e, h, n, lo, hi, valid, framed) =
    let long : length stream ≡ 4 + (length f + length more) =
      omega (arith, ap length e, length-append head (f ++ more), length-append f more) in
    let counted : read_u32 stream ≡ length f =
      ap read_u32 e ∙ (read_u32-append head (f ++ more) h ∙ n) in
    let behind : drop 4 stream ≡ f ++ more =
      ap (drop 4) e
      ∙ (ap (λ k. drop k (head ++ (f ++ more))) (sym h) ∙ drop-append head (f ++ more)) in
    let rest : drop (4 + length f) stream ≡ more =
      sym (drop-drop (length f) 4 stream) ∙ (ap (drop (length f)) behind ∙ drop-append f more) in
    let whole : ltb (length stream) (4 + length f) ≡ false = ground arith in
    rw (counted, whole, behind, rest, take-append f more)
      (ap (λ gs. f ∷ gs) (split-Framed fuel fs more w (omega arith) reading framed))

module _ {S : Type 0} (host : Host S) (handled : S → List (List ℕ))
    (hears : (s : S) (f : List ℕ) → handled (host.handle_frame s f).1 ≡ handled s ++ f ∷ [])
    (takes : (s : S) → handled (host.take_frame s).1 ≡ handled s) where
  -- However the bytes are cut into reads, and whatever happens between them: once the loop, still
  -- running, has read all that the peer has sent, the handler has got the frames of the stream, as the
  -- reference finds them, if only the loop passes this client's frames to the handler.
  pub run-split :
      (stream : List ℕ) (turns : List (Turn S)) (s : S) {progress : Bool} {w' : Worker} {s' : S}
      → AllUndisturbed host handled hears takes turns
      → handled s ≡ []
      → run host (start_worker stream) s turns ≡ goes_on progress w' s'
      → w'.input ≡ []
      → handled s' ≡ split (length stream) stream
  run-split stream turns s {progress} {w'} {s'} quiet none_yet runs empty =
      let (reading, framed) =
        subst (Heard host handled hears takes stream) runs
          (run-Framed host handled hears takes stream turns s quiet none_yet) in
      sym (
        split-Framed (length stream) (handled s') stream w' (omega arith) reading (
          subst (Framed (handled s') stream)
            (ap (λ bs. w'.incoming ++ bs) empty ∙ append-nil w'.incoming) framed))
