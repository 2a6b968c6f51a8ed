-- ===== src/Worker/Framing.antt =====
-- What the loop hears: the bytes of the connection cut into frames, whatever the sizes of the reads.
use cipher_chat.Prelude.{
  ℕ, ◌+◌, ◌-◌, ◌≤◌, ◌<◌, ◌≡◌, refl, sym, ap, subst, ◌∙◌, ◌⊎◌, inl, inr, Bool, true, false, not,
  ◌||◌, Option, none, some, List, [], ◌∷◌, ◌++◌, arith, ltb, ◌==◌, if◌then◌else◌, length, take,
  drop, Bool-cases, if_cases, length-append, length-take, drop-append, take-take-drop,
}
use mathlib.Core.List.{append_assoc, append-nil}
use cipher_chat.Status.{Result, ok, err, done, eproto, econnreset}
use cipher_chat.Wire.{frame_max_size, byte, read_u32, is_valid_frame_type}
use cipher_chat.Registry.{OutgoingFrame}
use cipher_chat.Worker.{
  Host, Turn, Worker, TlsCall, moves, refused, Phase, goes_on, returns, PollResult, ready,
  invalid_descriptor, wake_fd_broken, poll_failed, want_read, want_write, zero_return, fatal,
  is_waiting, grow, hear, whole, read_phase, poll_phase, proceed, wakeup, then_read, write_phase,
  after_read, after_write, is_pollout, frame_bytes, fill, transfer, round, run, start_worker,
}

-- A stream of bytes is these frames, each behind its length and of a known type, and then `rest`.
abbrev pub Framed : List (List ℕ) → List ℕ → List ℕ → Type 0
Framed [] stream rest = stream ≡ rest
Framed (f ∷ fs) stream rest =
    (head more : List ℕ) × (stream ≡ head ++ (f ++ more))
    × (length head ≡ 4)
    × (read_u32 head ≡ length f)
    × (1 ≤ length f)
    × (length f ≤ frame_max_size)
    × (is_valid_frame_type (byte f 0) ≡ true)
    × Framed fs more rest

-- One more frame from the rest.
Framed-concat :
    (fs : List (List ℕ)) (stream head f more : List ℕ)
    → length head ≡ 4
    → read_u32 head ≡ length f
    → 1 ≤ length f
    → length f ≤ frame_max_size
    → is_valid_frame_type (byte f 0) ≡ true
    → Framed fs stream (head ++ (f ++ more))
    → Framed (fs ++ f ∷ []) stream more
Framed-concat [] stream head f more h l lo hi v e = (head, more, e, h, l, lo, hi, v, refl)
Framed-concat (g ∷ fs) stream head f more h l lo hi v (head', more', e, h', l', lo', hi', v', t) =
    (head', more', e, h', l', lo', hi', v', Framed-concat fs more' head f more h l lo hi v t)

-- What the buffer holds between two rounds: part of a length, or a length in range and part of its
-- frame.
abbrev pub InHeader : Worker → Type 0
InHeader w = (w.needed ≡ 4) × (length w.incoming < 4)

abbrev pub InBody : Worker → Type 0
InBody w =
    (head body : List ℕ) × (w.incoming ≡ head ++ body)
    × (length head ≡ 4)
    × (w.needed ≡ 4 + read_u32 head)
    × (1 ≤ read_u32 head)
    × (read_u32 head ≤ frame_max_size)
    × (length body < read_u32 head)

abbrev pub IsReading : Worker → Type 0
IsReading w = InHeader w ⊎ InBody w

-- The bytes that a read adds, and those that are left.
grow_lem :
    (w : Worker) (n : ℕ)
    → (bytes : List ℕ) × ((grow w n).incoming ≡ w.incoming ++ bytes)
      × (w.input ≡ bytes ++ (grow w n).input)
      × (length bytes ≤ w.needed - length w.incoming)
grow_lem w n =
    let bytes = take n (take (w.needed - length w.incoming) w.input) in
    (
      bytes,
      refl,
      take-take-drop n (w.needed - length w.incoming) w.input,
      omega (
        arith,
        length-take n (take (w.needed - length w.incoming) w.input),
        length-take (w.needed - length w.incoming) w.input,
      ),
    )

-- The buffer holds what was asked for.
abbrev HasHeader : Worker → Type 0
HasHeader w = (w.needed ≡ 4) × (length w.incoming ≡ 4)

abbrev HasFrame : Worker → Type 0
HasFrame w =
    (head body : List ℕ) × (w.incoming ≡ head ++ body)
    × (length head ≡ 4)
    × (w.needed ≡ 4 + read_u32 head)
    × (1 ≤ read_u32 head)
    × (read_u32 head ≤ frame_max_size)
    × (length body ≡ read_u32 head)

grow-full :
    (w : Worker) (n : ℕ)
    → IsReading w
    → (length (grow w n).incoming == w.needed) ≡ true
    → HasHeader (grow w n) ⊎ HasFrame (grow w n)
grow-full w n (inl (e, l)) full = inl (e, ground arith)
grow-full w n (inr (head, body, e, h, needed, lo, hi, l)) full =
    let (bytes, grown, split, few) = grow_lem w n in
    inr (
      head,
      body ++ bytes,
      grown ∙ (ap (λ bs. bs ++ bytes) e ∙ append_assoc head body bytes),
      h,
      needed,
      lo,
      hi,
      ground (
        arith,
        length-append head (body ++ bytes),
        ap length (grown ∙ (ap (λ bs. bs ++ bytes) e ∙ append_assoc head body bytes)),
      ),
    )

grow-IsReading :
    (w : Worker) (n : ℕ)
    → IsReading w
    → (length (grow w n).incoming == w.needed) ≡ false
    → IsReading (grow w n)
grow-IsReading w n (inl (e, l)) more =
    let (bytes, grown, split, few) = grow_lem w n in
    inl (e, ground (arith, length-append w.incoming bytes, ap length grown))
grow-IsReading w n (inr (head, body, e, h, needed, lo, hi, l)) more =
    let (bytes, grown, split, few) = grow_lem w n in
    let joined = grown ∙ (ap (λ bs. bs ++ bytes) e ∙ append_assoc head body bytes) in
    inr (
      head,
      body ++ bytes,
      joined,
      h,
      needed,
      lo,
      hi,
      ground (
        arith,
        length-append head (body ++ bytes),
        length-append body bytes,
        length-append head body,
        ap length e,
        ap length joined,
      ),
    )

-- A read moves bytes from one part of the stream to the other.
grow-stream : (w : Worker) (n : ℕ) → (grow w n).incoming ++ (grow w n).input ≡ w.incoming ++ w.input
grow-stream w n =
    let (bytes, grown, split, few) = grow_lem w n in
    ap (λ bs. bs ++ (grow w n).input) grown
    ∙ (append_assoc w.incoming bytes (grow w n).input ∙ ap (λ bs. w.incoming ++ bs) (sym split))

module _ {S : Type 0} (host : Host S) (handled : S → List (List ℕ))
    (hears : (s : S) (f : List ℕ) → handled (host.handle_frame s f).1 ≡ handled s ++ f ∷ [])
    (takes : (s : S) → handled (host.take_frame s).1 ≡ handled s) where
  -- Nothing that other threads do is a frame of this client.
  abbrev pub Undisturbed : Turn S → Type 0
  Undisturbed turn =
      ((s : S) → handled (turn.before_status s) ≡ handled s)
      × ((s : S) → handled (turn.before_take s) ≡ handled s)
      × ((s : S) → handled (turn.before_handle s) ≡ handled s)

  abbrev pub Heard : List ℕ → Phase S → Type 0
  Heard stream (goes_on progress w s) =
      IsReading w × Framed (handled s) stream (w.incoming ++ w.input)
  Heard stream (returns r w s) = (part : List ℕ) × Framed (handled s) stream (part ++ w.input)

  hear-Heard :
      (stream : List ℕ) (w : Worker) (s : S) (head f : List ℕ)
      → w.incoming ≡ head ++ f
      → length head ≡ 4
      → read_u32 head ≡ length f
      → 1 ≤ length f
      → length f ≤ frame_max_size
      → Framed (handled s) stream (w.incoming ++ w.input)
      → Heard stream (hear host w s)
  unfolding hear
  hear-Heard stream w s head f e h l lo hi framed =
      let frame : drop 4 w.incoming ≡ f =
        ap (drop 4) e ∙ (ap (λ n. drop n (head ++ f)) (sym h) ∙ drop-append head f) in
      let whole_stream : Framed (handled s) stream (head ++ (f ++ w.input)) =
        subst (Framed (handled s) stream) (ap (λ bs. bs ++ w.input) e ∙ append_assoc head f w.input)
          framed in
      rw frame (
        heard (Bool-cases (is_valid_frame_type (byte f 0))) (Bool-cases (host.handle_frame s f).0)
          whole_stream)
    where
      heard :
          (is_valid_frame_type (byte f 0) ≡ true) ⊎ (is_valid_frame_type (byte f 0) ≡ false)
          → ((host.handle_frame s f).0 ≡ true) ⊎ ((host.handle_frame s f).0 ≡ false)
          → Framed (handled s) stream (head ++ (f ++ w.input))
          → Heard stream (
              if not (is_valid_frame_type (byte f 0))
              then returns (err eproto) w s
              else if (host.handle_frame s f).0
              then goes_on true (record w { incoming = []; needed = 4 }) (host.handle_frame s f).1
              else returns done w (host.handle_frame s f).1)
      heard (inr bad) on fr = rw bad (w.incoming, framed)
      heard (inl good) (inl on) fr =
          rw (good, on, hears s f)
            (
              inl (refl, omega arith),
              Framed-concat (handled s) stream head f w.input h l lo hi good fr,
            )
      heard (inl good) (inr off) fr =
          rw (good, off, hears s f)
            ([], Framed-concat (handled s) stream head f w.input h l lo hi good fr)

  whole-Heard :
      (stream : List ℕ) (w : Worker) (s : S)
      → HasHeader w ⊎ HasFrame w
      → Framed (handled s) stream (w.incoming ++ w.input)
      → Heard stream (whole host w s)
  unfolding whole
  whole-Heard stream w s (inr (head, body, e, h, needed, lo, hi, l)) framed =
      rw (let other : (w.needed == 4) ≡ false = ground arith in other)
        (hear-Heard stream w s head body e h (sym l) (omega arith) (omega arith) framed)
  whole-Heard stream w s (inl (four, l)) framed =
      let n = read_u32 w.incoming in
      elim (Bool-cases (n == 0 || ltb frame_max_size n)) [
        | inl bad ↦ rw (four, bad) (w.incoming, framed)
        | inr good ↦
            rw (four, good)
              (
                inr (
                  w.incoming,
                  [],
                  sym (append-nil w.incoming),
                  l,
                  refl,
                  ground arith,
                  ground arith,
                  ground arith,
                ),
                framed,
              )
      ]

  after_read-Heard :
      (stream : List ℕ) (progress : Bool) (w : Worker) (s : S) (call : TlsCall)
      → IsReading w
      → Framed (handled s) stream (w.incoming ++ w.input)
      → Heard stream (after_read host progress w s call)
  unfolding after_read
  after_read-Heard stream progress w s (moves n) reading framed =
      let here : Framed (handled s) stream ((grow w n).incoming ++ (grow w n).input) =
        subst (Framed (handled s) stream) (sym (grow-stream w n)) framed in
      elim (Bool-cases (length (grow w n).incoming == w.needed)) [
        | inl full ↦ rw full (whole-Heard stream (grow w n) s (grow-full w n reading full) here)
        | inr part ↦ rw part (grow-IsReading w n reading part, here)
      ]
  after_read-Heard stream progress w s (refused want_read) reading framed = (reading, framed)
  after_read-Heard stream progress w s (refused want_write) reading framed = (reading, framed)
  after_read-Heard stream progress w s (refused zero_return) reading framed =
      if_cases (Heard stream) (not (length w.incoming == 0)) (returns (err econnreset) w s)
        (returns done w s) (λ _. (w.incoming, framed)) (λ _. (w.incoming, framed))
  after_read-Heard stream progress w s (refused (fatal none)) reading framed = (w.incoming, framed)
  after_read-Heard stream progress w s (refused (fatal (some e))) reading framed =
      (w.incoming, framed)

  read_phase-Heard :
      (stream : List ℕ) (progress : Bool) (w : Worker) (s : S) (call : TlsCall)
      → IsReading w
      → Framed (handled s) stream (w.incoming ++ w.input)
      → Heard stream (read_phase host progress w s call)
  unfolding read_phase
  read_phase-Heard stream progress w s call reading framed =
      if_cases (Heard stream) (is_waiting w.write_wait) (goes_on progress w s)
        (after_read host progress w s call) (λ _. (reading, framed))
        (λ _. after_read-Heard stream progress w s call reading framed)

  after_write-Heard :
      (stream : List ℕ) (w : Worker) (s : S) (call : TlsCall)
      → IsReading w
      → Framed (handled s) stream (w.incoming ++ w.input)
      → Heard stream (after_write w s call)
  unfolding after_write
  after_write-Heard stream w s (moves n) reading framed = (reading, framed)
  after_write-Heard stream w s (refused want_read) reading framed = (reading, framed)
  after_write-Heard stream w s (refused want_write) reading framed = (reading, framed)
  after_write-Heard stream w s (refused zero_return) reading framed = (w.incoming, framed)
  after_write-Heard stream w s (refused (fatal none)) reading framed = (w.incoming, framed)
  after_write-Heard stream w s (refused (fatal (some e))) reading framed = (w.incoming, framed)

  write_phase-Heard :
      (stream : List ℕ) (w : Worker) (s : S) (call : TlsCall)
      → IsReading w
      → Framed (handled s) stream (w.incoming ++ w.input)
      → Heard stream (write_phase w s call)
  unfolding write_phase
  write_phase-Heard stream w s call reading framed =
      if_cases (Heard stream) (length w.outgoing == 0 || is_pollout w.read_wait) (goes_on false w s)
        (after_write w s call) (λ _. (reading, framed))
        (λ _. after_write-Heard stream w s call reading framed)

  then_read-Heard :
      (stream : List ℕ) (turn : Turn S) (phase : Phase S)
      → Undisturbed turn
      → Heard stream phase
      → Heard stream (then_read host turn phase)
  unfolding then_read
  then_read-Heard stream turn (returns r w s) quiet h = h
  then_read-Heard stream turn (goes_on progress w s) quiet (reading, framed) =
      read_phase-Heard stream progress w (turn.before_handle s) turn.read reading
        (subst (λ fs. Framed fs stream (w.incoming ++ w.input)) (sym (quiet.2 s)) framed)

  -- What the part of a round behind the search for a frame to send needs.
  abbrev Ready : List ℕ → Worker → S → Type 0
  Ready stream w s = IsReading w × Framed (handled s) stream (w.incoming ++ w.input)

  transfer-Heard :
      (stream : List ℕ) (turn : Turn S) (w w' : Worker) (s : S)
      → Undisturbed turn
      → Ready stream w' s
      → Heard stream (transfer host turn w (ok w', s))
  unfolding transfer
  transfer-Heard stream turn w w' s quiet (reading, framed) =
      then_read-Heard stream turn (write_phase w' s turn.write) quiet
        (write_phase-Heard stream w' s turn.write reading framed)

  fill-Heard :
      (stream : List ℕ) (turn : Turn S) (w : Worker) (taken : Result (Option OutgoingFrame) × S)
      → Undisturbed turn
      → Ready stream w taken.1
      → Heard stream (transfer host turn w (fill w taken))
  unfolding fill transfer
  fill-Heard stream turn w (err e, s) quiet (reading, framed) = (w.incoming, framed)
  fill-Heard stream turn w (ok none, s) quiet at = transfer-Heard stream turn w w s quiet at
  fill-Heard stream turn w (ok (some f), s) quiet at =
      transfer-Heard stream turn w (record w { outgoing = frame_bytes f; sent = 0 }) s quiet at

  poll_phase-Heard :
      (stream : List ℕ) (result : PollResult) (phase : Phase S)
      → Heard stream phase
      → Heard stream (poll_phase result phase)
  unfolding poll_phase
  poll_phase-Heard stream result (returns r w s) h = h
  poll_phase-Heard stream result (goes_on true w s) h = h
  poll_phase-Heard stream ready (goes_on false w s) h = h
  poll_phase-Heard stream invalid_descriptor (goes_on false w s) (reading, framed) =
      (w.incoming, framed)
  poll_phase-Heard stream wake_fd_broken (goes_on false w s) (reading, framed) =
      (w.incoming, framed)
  poll_phase-Heard stream (poll_failed e) (goes_on false w s) (reading, framed) =
      (w.incoming, framed)

  -- A round behind the look at the output status.
  moved-Heard :
      (stream : List ℕ) (turn : Turn S) (w : Worker) (s : S)
      → Undisturbed turn
      → Ready stream w s
      → Heard stream (
          transfer host turn w
            (if length w.outgoing == 0 then fill w (host.take_frame s) else (ok w, s)))
  moved-Heard stream turn w s quiet at = elim (Bool-cases (length w.outgoing == 0)) [
    | inl idle ↦ rw idle (
        fill-Heard stream turn w (host.take_frame s) quiet
          (at.0, subst (λ fs. Framed fs stream (w.incoming ++ w.input)) (sym (takes s)) at.1))
    | inr busy ↦ rw busy (transfer-Heard stream turn w w s quiet at)
  ]

  proceed-Heard :
      (stream : List ℕ) (answer : Result (Unit {0})) (w : Worker) (s : S) (rest : Phase S)
      → Framed (handled s) stream (w.incoming ++ w.input)
      → Heard stream rest
      → Heard stream (proceed answer w s rest)
  unfolding proceed
  proceed-Heard stream (ok u) w s rest framed h = h
  proceed-Heard stream (err e) w s rest framed h = (w.incoming, framed)

  round-Heard :
      (stream : List ℕ) (turn : Turn S) (w : Worker) (s : S)
      → Undisturbed turn
      → Ready stream w s
      → Heard stream (round host turn w s)
  unfolding round
  round-Heard stream turn w s quiet (reading, framed) =
      let seen = turn.before_status s in
      let taking = turn.before_take seen in
      let framed_as = λ (fs : List (List ℕ)). Framed fs stream (w.incoming ++ w.input) in
      let framed_seen : framed_as (handled seen) = subst framed_as (sym (quiet.0 s)) framed in
      let framed_taking : framed_as (handled taking) =
        subst framed_as (sym (quiet.1 seen)) framed_seen in
      proceed-Heard stream (wakeup turn.wakeup_error) w s _ framed (
        proceed-Heard stream (host.output_status seen) w seen _ framed_seen (
          poll_phase-Heard stream turn.poll _
            (moved-Heard stream turn w taking quiet (reading, framed_taking))))

  abbrev pub AllUndisturbed : List (Turn S) → Type 0
  AllUndisturbed [] = Unit {0}
  AllUndisturbed (turn ∷ turns) = Undisturbed turn × AllUndisturbed turns

  run-Heard :
      (stream : List ℕ) (turns : List (Turn S)) (w : Worker) (s : S)
      → AllUndisturbed turns
      → Ready stream w s
      → Heard stream (run host w s turns)
  unfolding run
  run-Heard stream [] w s quiet at = at
  run-Heard stream (turn ∷ turns) w s quiet at =
      after (round host turn w s) (round-Heard stream turn w s quiet.0 at) (run-Heard stream turns)
    where
      after :
          (phase : Phase S)
          → Heard stream phase
          → ((w : Worker) (s : S)
              → AllUndisturbed turns
              → Ready stream w s
              → Heard stream (run host w s turns))
          → Heard stream (elim phase as (λ _. Phase S) [
            | goes_on progress w' s' ↦ run host w' s' turns
            | returns r w' s' ↦ returns r w' s'
          ])
      after (goes_on progress w' s') h rest = rest w' s' quiet.1 h
      after (returns r w' s') h rest = h

  -- Whatever the sizes of the reads, the retries and the frames to send between them, and as long as
  -- only the loop passes this client's frames to the handler: from the start, the bytes that the peer
  -- has sent are the frames that the handler got, in order, each behind its length and of a known type,
  -- then what the buffer holds, less than was asked for, and then what has not been read. When the loop
  -- has returned, the same holds with some part of a frame for the buffer.
  pub run-Framed :
      (stream : List ℕ) (turns : List (Turn S)) (s : S)
      → AllUndisturbed turns
      → handled s ≡ []
      → Heard stream (run host (start_worker stream) s turns)
  run-Framed stream turns s quiet none_yet =
      run-Heard stream turns (start_worker stream) s quiet
        (inl (refl, omega arith), subst (λ fs. Framed fs stream stream) (sym none_yet) refl)
