-- ===== src/Worker/Sending.antt =====
-- What the loop sends: the frames that it takes from the queue, in order and whole.
use cipher_chat.Prelude.{
  ℕ, zero, suc, ◌+◌, ◌≡◌, refl, sym, ap, ◌∙◌, inl, inr, Bool, true, false, not, ◌||◌, Option, none,
  some, List, [], ◌∷◌, ◌++◌, arith, ltb, ◌==◌, if◌then◌else◌, length, take, drop, Bool-cases,
  if_cases, drop-drop, ==_iff,
}
use mathlib.Core.List.{append_assoc, append-nil}
use cipher_chat.Status.{Result, ok, err, done, econnreset, emsgsize}
use cipher_chat.Wire.{frame_max_size, byte, read_u32, is_valid_frame_type}
use cipher_chat.Registry.{OutgoingFrame}
use cipher_chat.Worker.{
  Host, Turn, Worker, TlsCall, moves, refused, want_read, want_write, zero_return, fatal, Phase,
  goes_on, returns, PollResult, ready, invalid_descriptor, wake_fd_broken, poll_failed, is_waiting,
  is_pollout, grow, hear, whole, after_read, read_phase, poll_phase, proceed, wakeup, then_read,
  advance, after_write, write_phase, frame_bytes, fill, transfer, round, run, start_worker,
}

-- The bytes of frames that follow one another.
abbrev pub bytes_of : List OutgoingFrame → List ℕ
bytes_of [] = []
bytes_of (f ∷ fs) = frame_bytes f ++ bytes_of fs

bytes_of-concat :
    (fs : List OutgoingFrame) (f : OutgoingFrame)
    → bytes_of (fs ++ f ∷ []) ≡ bytes_of fs ++ frame_bytes f
bytes_of-concat [] f = append-nil (frame_bytes f)
bytes_of-concat (g ∷ fs) f =
    ap (λ bs. frame_bytes g ++ bs) (bytes_of-concat fs f)
    ∙ sym (append_assoc (frame_bytes g) (bytes_of fs) (frame_bytes f))

drop-length {ℓ} : {A : Type ℓ} (xs : List A) → drop (length xs) xs ≡ []
drop-length [] = refl
drop-length (x ∷ xs) = drop-length xs

drop-nil {ℓ} : {A : Type ℓ} (n : ℕ) (xs : List A) → (length xs == 0) ≡ true → drop n xs ≡ []
drop-nil zero [] h = refl
drop-nil (suc n) [] h = refl
drop-nil n (x ∷ xs) h = absurd (ground arith)

drop-length-take {ℓ} :
    {A : Type ℓ} (n : ℕ) (xs : List A) → take n xs ++ drop (length (take n xs)) xs ≡ xs
drop-length-take zero xs = refl
drop-length-take (suc n) [] = refl
drop-length-take (suc n) (x ∷ xs) = ap (λ ys. x ∷ ys) (drop-length-take n xs)

drop_none {ℓ} : {A : Type ℓ} (n : ℕ) → ◌≡◌ {A = List A} (drop n []) []
drop_none zero = refl
drop_none (suc n) = refl

-- What a write moves.
advance-sent :
    (w : Worker) (n : ℕ)
    → (advance w n).output ++ drop (advance w n).sent (advance w n).outgoing
      ≡ w.output ++ drop w.sent w.outgoing
advance-sent w n =
    let written = take n (drop w.sent w.outgoing) in
    let left = drop (w.sent + length written) w.outgoing in
    let moved : (w.output ++ written) ++ left ≡ w.output ++ drop w.sent w.outgoing =
      append_assoc w.output written left
      ∙ ap (λ bs. w.output ++ bs)
          (ap (λ bs. written ++ bs) (sym (drop-drop (length written) w.sent w.outgoing))
            ∙ drop-length-take n (drop w.sent w.outgoing)) in
    elim (Bool-cases (w.sent + length written == length w.outgoing)) [
      | inl all ↦ rw all (
          ap (λ bs. (w.output ++ written) ++ bs)
            (drop_none (w.sent + length written)
              ∙ sym (ap (λ k. drop k w.outgoing) ((==_iff _ _).0 all) ∙ drop-length w.outgoing))
          ∙ moved)
      | inr part ↦ rw part moved
    ]

module _ {S : Type 0} (host : Host S) (taken : S → List OutgoingFrame)
    (hears : (s : S) (f : List ℕ) → taken (host.handle_frame s f).1 ≡ taken s) where
  -- The queue hands over a frame or none, and the record of what it has handed over follows.
  abbrev pub Takes : Result (Option OutgoingFrame) × S → List OutgoingFrame → Type 0
  Takes (ok (some f), s) before = taken s ≡ before ++ f ∷ []
  Takes (ok none, s) before = taken s ≡ before
  Takes (err e, s) before = taken s ≡ before

  -- The frames that other threads take are not those of this client.
  abbrev pub Untaken : Turn S → Type 0
  Untaken turn =
      ((s : S) → taken (turn.before_status s) ≡ taken s)
      × ((s : S) → taken (turn.before_take s) ≡ taken s)
      × ((s : S) → taken (turn.before_handle s) ≡ taken s)

  -- What has gone out, and what is left of the frame on its way.
  abbrev pub InOrder : Worker → S → Type 0
  InOrder w s = w.output ++ drop w.sent w.outgoing ≡ bytes_of (taken s)

  abbrev pub Spoken : Phase S → Type 0
  Spoken (goes_on progress w s) = InOrder w s
  Spoken (returns r w s) = InOrder w s

  hear-Spoken : (w : Worker) (s : S) → InOrder w s → Spoken (hear host w s)
  unfolding hear
  hear-Spoken w s at =
      let frame = drop 4 w.incoming in
      let heard : InOrder w (host.handle_frame s frame).1 =
        at ∙ ap bytes_of (sym (hears s frame)) in
      elim (Bool-cases (is_valid_frame_type (byte frame 0))) [
        | inr bad ↦ rw bad at
        | inl good ↦ elim (Bool-cases (host.handle_frame s frame).0) [
          | inl on ↦ rw (good, on) heard
          | inr off ↦ rw (good, off) heard
        ]
      ]

  whole-Spoken : (w : Worker) (s : S) → InOrder w s → Spoken (whole host w s)
  unfolding whole
  whole-Spoken w s at =
      let n = read_u32 w.incoming in
      let longer : Worker = record w { needed = 4 + n } in
      if_cases Spoken (w.needed == 4)
        (if n == 0 || ltb frame_max_size n
          then returns (err emsgsize) w s
          else goes_on true longer s)
        (hear host w s)
        (λ _.
          if_cases Spoken (n == 0 || ltb frame_max_size n) (returns (err emsgsize) w s)
            (goes_on true longer s) (λ _. at) (λ _. at))
        (λ _. hear-Spoken w s at)

  after_read-Spoken :
      (progress : Bool) (w : Worker) (s : S) (call : TlsCall)
      → InOrder w s
      → Spoken (after_read host progress w s call)
  unfolding after_read
  after_read-Spoken progress w s (moves n) at =
      if_cases Spoken (length (grow w n).incoming == w.needed) (whole host (grow w n) s)
        (goes_on true (grow w n) s) (λ _. whole-Spoken (grow w n) s at) (λ _. at)
  after_read-Spoken progress w s (refused want_read) at = at
  after_read-Spoken progress w s (refused want_write) at = at
  after_read-Spoken progress w s (refused zero_return) at =
      if_cases Spoken (not (length w.incoming == 0)) (returns (err econnreset) w s)
        (returns done w s) (λ _. at) (λ _. at)
  after_read-Spoken progress w s (refused (fatal none)) at = at
  after_read-Spoken progress w s (refused (fatal (some e))) at = at

  after_write-Spoken :
      (w : Worker) (s : S) (call : TlsCall) → InOrder w s → Spoken (after_write w s call)
  unfolding after_write
  after_write-Spoken w s (moves n) at = advance-sent w n ∙ at
  after_write-Spoken w s (refused want_read) at = at
  after_write-Spoken w s (refused want_write) at = at
  after_write-Spoken w s (refused zero_return) at = at
  after_write-Spoken w s (refused (fatal none)) at = at
  after_write-Spoken w s (refused (fatal (some e))) at = at

  then_read-Spoken :
      (turn : Turn S) (phase : Phase S)
      → Untaken turn
      → Spoken phase
      → Spoken (then_read host turn phase)
  unfolding then_read read_phase
  then_read-Spoken turn (returns r w s) quiet at = at
  then_read-Spoken turn (goes_on progress w s) quiet at =
      let s' = turn.before_handle s in
      let at' : InOrder w s' = at ∙ ap bytes_of (sym (quiet.2 s)) in
      if_cases Spoken (is_waiting w.write_wait) (goes_on progress w s')
        (after_read host progress w s' turn.read) (λ _. at')
        (λ _. after_read-Spoken progress w s' turn.read at')

  transfer-Spoken :
      (turn : Turn S) (w w' : Worker) (s : S)
      → Untaken turn
      → InOrder w' s
      → Spoken (transfer host turn w (ok w', s))
  unfolding transfer write_phase
  transfer-Spoken turn w w' s quiet at = then_read-Spoken turn (write_phase w' s turn.write) quiet (
      if_cases Spoken (length w'.outgoing == 0 || is_pollout w'.read_wait) (goes_on false w' s)
        (after_write w' s turn.write) (λ _. at) (λ _. after_write-Spoken w' s turn.write at))

  fill-Spoken :
      (turn : Turn S) (w : Worker) (before : List OutgoingFrame)
      (out : Result (Option OutgoingFrame) × S)
      → Untaken turn
      → (length w.outgoing == 0) ≡ true
      → w.output ++ drop w.sent w.outgoing ≡ bytes_of before
      → Takes out before
      → Spoken (transfer host turn w (fill w out))
  unfolding fill transfer
  fill-Spoken turn w before (err e, s) quiet idle at took = at ∙ ap bytes_of (sym took)
  fill-Spoken turn w before (ok none, s) quiet idle at took =
      transfer-Spoken turn w w s quiet (at ∙ ap bytes_of (sym took))
  fill-Spoken turn w before (ok (some f), s) quiet idle at took =
      let gone : w.output ≡ bytes_of before =
        sym (append-nil w.output)
        ∙ (ap (λ bs. w.output ++ bs) (sym (drop-nil w.sent w.outgoing idle)) ∙ at) in
      transfer-Spoken turn w (record w { outgoing = frame_bytes f; sent = 0 }) s quiet
        (ap (λ bs. bs ++ frame_bytes f) gone
          ∙ (sym (bytes_of-concat before f) ∙ ap bytes_of (sym took)))

  poll_phase-Spoken :
      (result : PollResult) (phase : Phase S) → Spoken phase → Spoken (poll_phase result phase)
  unfolding poll_phase
  poll_phase-Spoken result (returns r w s) at = at
  poll_phase-Spoken result (goes_on true w s) at = at
  poll_phase-Spoken ready (goes_on false w s) at = at
  poll_phase-Spoken invalid_descriptor (goes_on false w s) at = at
  poll_phase-Spoken wake_fd_broken (goes_on false w s) at = at
  poll_phase-Spoken (poll_failed e) (goes_on false w s) at = at

  proceed-Spoken :
      (answer : Result (Unit {0})) (w : Worker) (s : S) (rest : Phase S)
      → InOrder w s
      → Spoken rest
      → Spoken (proceed answer w s rest)
  unfolding proceed
  proceed-Spoken (ok u) w s rest at h = h
  proceed-Spoken (err e) w s rest at h = at

  module _ (takes : (s : S) → Takes (host.take_frame s) (taken s)) where
    moved-Spoken :
        (turn : Turn S) (w : Worker) (s : S)
        → Untaken turn
        → InOrder w s
        → Spoken (
            transfer host turn w
              (if length w.outgoing == 0 then fill w (host.take_frame s) else (ok w, s)))
    moved-Spoken turn w s quiet at = elim (Bool-cases (length w.outgoing == 0)) [
      | inl idle ↦
          rw idle (fill-Spoken turn w (taken s) (host.take_frame s) quiet idle at (takes s))
      | inr busy ↦ rw busy (transfer-Spoken turn w w s quiet at)
    ]

    round-Spoken :
        (turn : Turn S) (w : Worker) (s : S)
        → Untaken turn
        → InOrder w s
        → Spoken (round host turn w s)
    unfolding round
    round-Spoken turn w s quiet at =
        let seen = turn.before_status s in
        let at_seen : InOrder w seen = at ∙ ap bytes_of (sym (quiet.0 s)) in
        let at_taking : InOrder w (turn.before_take seen) =
          at_seen ∙ ap bytes_of (sym (quiet.1 seen)) in
        proceed-Spoken (wakeup turn.wakeup_error) w s _ at (
          proceed-Spoken (host.output_status seen) w seen _ at_seen (
            poll_phase-Spoken turn.poll _
              (moved-Spoken turn w (turn.before_take seen) quiet at_taking)))

    abbrev pub AllUntaken : List (Turn S) → Type 0
    AllUntaken [] = Unit {0}
    AllUntaken (turn ∷ turns) = Untaken turn × AllUntaken turns

    run_from :
        (turns : List (Turn S)) (w : Worker) (s : S)
        → AllUntaken turns
        → InOrder w s
        → Spoken (run host w s turns)
    unfolding run
    run_from [] w s quiet at = at
    run_from (turn ∷ turns) w s quiet at =
        after (round host turn w s) (round-Spoken turn w s quiet.0 at) (run_from turns)
      where
        after :
            (phase : Phase S)
            → Spoken phase
            → ((w : Worker) (s : S) → AllUntaken turns → InOrder w s → Spoken (run host w s turns))
            → Spoken (elim phase as (λ _. Phase S) [
              | goes_on progress w' s' ↦ run host w' s' turns
              | returns r w' s' ↦ returns r w' s'
            ])
        after (goes_on progress w' s') h rest = rest w' s' quiet.1 h
        after (returns r w' s') h rest = h

    -- However many bytes each write takes, whatever retries come between, and whether the loop still
    -- runs or has returned: what has gone out, with what is left of the frame on its way, is the frames
    -- that the loop has taken from the queue, in order and whole, if only the loop takes this client's
    -- frames.
    pub run-Spoken :
        (input : List ℕ) (turns : List (Turn S)) (s : S)
        → AllUntaken turns
        → taken s ≡ []
        → Spoken (run host (start_worker input) s turns)
    run-Spoken input turns s quiet none_yet =
        run_from turns (start_worker input) s quiet (ap bytes_of (sym none_yet))
