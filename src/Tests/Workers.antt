-- ===== src/Tests/Workers.antt =====
-- Witnesses on the loop of the worker and on the thread of a client.
use cipher_chat.Prelude.{ℕ, ◌≡◌, refl, true, none, some, List, [], ◌∷◌, ◌++◌, length}
use cipher_chat.Status.{ok, done}
use cipher_chat.Text.{codes}
use cipher_chat.Wire.{frame_text, read_u32, is_valid_frame_type}
use cipher_chat.Registry.{OutgoingFrame}
use cipher_chat.Worker.{
  Host, Turn, TlsCall, moves, refused, want_read, ready, goes_on, run, start_worker, round, proceed,
  transfer, then_read, read_phase, after_read, whole, hear, write_phase, poll_phase, fill,
}
use cipher_chat.Worker.Framing.{Heard, run-Framed}
use cipher_chat.Worker.Split.{split, run-split}
use cipher_chat.Worker.Sending.{Spoken, run-Spoken}

-- The frames that the handler has got; there is nothing to send.
abbrev listener : Host (List (List ℕ))
listener = record {
  output_status = λ s. done;
  take_frame = λ s. (ok none, s);
  handle_frame = λ s f. (true, s ++ f ∷ []);
}

abbrev quiet_turn : {S : Type 0} → TlsCall → TlsCall → Turn S
quiet_turn write read = record {
  before_status = λ s. s;
  before_take = λ s. s;
  before_handle = λ s. s;
  wakeup_error = none;
  write = write;
  read = read;
  poll = ready;
}

-- The text "h", in two reads.
abbrev text_stream : List ℕ
text_stream = 0 ∷ 0 ∷ 0 ∷ 2 ∷ 4 ∷ 104 ∷ []

abbrev two_reads : List (Turn (List (List ℕ)))
two_reads = quiet_turn (refused want_read) (moves 4) ∷ quiet_turn (refused want_read) (moves 2) ∷ []

run-Framed_example :
    Heard listener
      (λ s. s)
      (λ s f. refl)
      (λ s. refl)
      text_stream
      (run listener (start_worker text_stream) [] two_reads)
run-Framed_example =
    run-Framed listener (λ s. s) (λ s f. refl) (λ s. refl) text_stream two_reads []
      ((λ s. refl, λ s. refl, λ s. refl), ((λ s. refl, λ s. refl, λ s. refl), tt)) refl

heard_all :
    run listener (start_worker text_stream) [] two_reads
    ≡ goes_on true (start_worker []) ((4 ∷ 104 ∷ []) ∷ [])
unfolding run round proceed transfer then_read read_phase after_read whole hear write_phase
    poll_phase fill read_u32 is_valid_frame_type
heard_all = refl

run-split_example : (4 ∷ 104 ∷ []) ∷ [] ≡ split (length text_stream) text_stream
run-split_example =
    run-split listener (λ s. s) (λ s f. refl) (λ s. refl) text_stream two_reads []
      ((λ s. refl, λ s. refl, λ s. refl), ((λ s. refl, λ s. refl, λ s. refl), tt)) refl heard_all
      refl

abbrev hello : OutgoingFrame
hello = record { type = frame_text; payload = codes "hello" }

-- The frames that have been taken; there is always one more.
abbrev speaker : Host (List OutgoingFrame)
speaker = record {
  output_status = λ s. done;
  take_frame = λ s. (ok (some hello), s ++ hello ∷ []);
  handle_frame = λ s f. (true, s);
}

abbrev two_writes : List (Turn (List OutgoingFrame))
two_writes =
    quiet_turn (moves 3) (refused want_read) ∷ quiet_turn (moves 100) (refused want_read) ∷ []

run-Spoken_example :
    Spoken speaker (λ s. s) (λ s f. refl) (run speaker (start_worker []) [] two_writes)
run-Spoken_example =
    run-Spoken speaker (λ s. s) (λ s f. refl) (λ s. refl) [] two_writes []
      ((λ s. refl, λ s. refl, λ s. refl), ((λ s. refl, λ s. refl, λ s. refl), tt)) refl
