-- ===== src/Worker/Serve.antt =====
-- The loop on the tables of the server: what it calls are the operations of Registry and the handler of
-- frames of Chat.
use cipher_chat.Prelude.{
  ℕ, zero, suc, ◌+◌, ◌-◌, ◌≡◌, refl, Bool, true, false, not, ◌||◌, Option, none, some, List, [],
  ◌∷◌, ◌++◌, ltb, ◌==◌, if◌then◌else◌, length, take, drop, inl, inr, Bool-cases, if_cases,
}
use cipher_chat.Status.{enoent, Result, ok, err, done, econnreset, emsgsize}
use cipher_chat.Wire.{frame_max_size, byte, read_u32, is_valid_frame_type}
use cipher_chat.Wire.RoundTrip.{AreBytes}
use cipher_chat.FileProtocol.Reencode.{drop-AreBytes}
use cipher_chat.Registry
use cipher_chat.Registry.{Os, OutgoingFrame}
use cipher_chat.Registry.Preserve.{take_outgoing_frame-IsValid}
use cipher_chat.ServerFiles.{Server}
use cipher_chat.ServerFiles.Invariant.{IsServer}
use cipher_chat.Chat.{handle_client_frame}
use cipher_chat.Chat.Invariant.{handle_client_frame-IsServer}
use cipher_chat.Worker.{
  Host, Turn, Worker, TlsCall, moves, refused, want_read, want_write, zero_return, fatal, Phase,
  goes_on, returns, PollResult, ready, invalid_descriptor, wake_fd_broken, poll_failed, is_waiting,
  is_pollout, grow, hear, whole, after_read, read_phase, poll_phase, proceed, wakeup, then_read,
  after_write, write_phase, frame_bytes, fill, transfer, round, run, start_worker,
}

append-AreBytes : (xs ys : List ℕ) → AreBytes xs → AreBytes ys → AreBytes (xs ++ ys)
append-AreBytes [] ys p q = q
append-AreBytes (x ∷ xs) ys p q = (p.0, append-AreBytes xs ys p.1 q)

take-AreBytes : (n : ℕ) (xs : List ℕ) → AreBytes xs → AreBytes (take n xs)
take-AreBytes zero xs p = tt
take-AreBytes (suc n) [] p = tt
take-AreBytes (suc n) (x ∷ xs) p = (p.0, take-AreBytes n xs p.1)

-- The loop of the client with this id and this name.
abbrev pub server_host : Os → ℕ → List ℕ → Host Server
server_host os id name = record {
  output_status = λ s. Registry.client_output_status s.registry id;
  take_frame = λ s. (
    (Registry.take_outgoing_frame s.registry id).0,
    record s { registry = (Registry.take_outgoing_frame s.registry id).1 },
  );
  handle_frame = λ s frame. handle_client_frame os s id name frame;
}

module _ (os : Os) (id : ℕ) (name : List ℕ) where
  abbrev host : Host Server
  host = server_host os id name

  -- Between two calls: the tables are valid, and what the peer has sent are bytes.
  pub record IsServed (w : Worker) (s : Server) : Type 0 where
    pub heard : AreBytes w.incoming
    pub waits : AreBytes w.input
    pub tables : IsServer s

  abbrev pub Served : Phase Server → Type 0
  Served (goes_on progress w s) = IsServed w s
  Served (returns r w s) = IsServed w s

  -- What other threads do keeps the tables valid.
  abbrev pub Keeps : Turn Server → Type 0
  Keeps turn =
      ((s : Server) → IsServer s → IsServer (turn.before_status s))
      × ((s : Server) → IsServer s → IsServer (turn.before_take s))
      × ((s : Server) → IsServer s → IsServer (turn.before_handle s))

  same-IsServed :
      {w : Worker} {s : Server} (w' : Worker) (s' : Server)
      → IsServed w s
      → w'.incoming ≡ w.incoming
      → w'.input ≡ w.input
      → IsServer s'
      → IsServed w' s'
  same-IsServed w' s' at e f v = record { heard = rw e at.heard; waits = rw f at.waits; tables = v }

  hear-Served : (w : Worker) (s : Server) → IsServed w s → Served (hear host w s)
  unfolding hear
  hear-Served w s at =
      let frame = drop 4 w.incoming in
      let v =
        handle_client_frame-IsServer os id name frame at.tables
          (drop-AreBytes 4 w.incoming at.heard) in
      elim (Bool-cases (is_valid_frame_type (byte frame 0))) [
        | inr bad ↦ rw bad at
        | inl good ↦ elim (Bool-cases (handle_client_frame os s id name frame).0) [
          | inl on ↦ rw (good, on) (record { heard = tt; waits = at.waits; tables = v })
          | inr off ↦ rw (good, off) (record { heard = at.heard; waits = at.waits; tables = v })
        ]
      ]

  whole-Served : (w : Worker) (s : Server) → IsServed w s → Served (whole host w s)
  unfolding whole
  whole-Served w s at =
      let n = read_u32 w.incoming in
      let longer : Worker = record w { needed = 4 + n } in
      if_cases Served (w.needed == 4)
        (if n == 0 || ltb frame_max_size n
          then returns (err emsgsize) w s
          else goes_on true longer s)
        (hear host w s)
        (λ _.
          if_cases Served (n == 0 || ltb frame_max_size n) (returns (err emsgsize) w s)
            (goes_on true longer s) (λ _. at) (λ _. same-IsServed longer s at refl refl at.tables))
        (λ _. hear-Served w s at)

  grow-IsServed : (w : Worker) (s : Server) (n : ℕ) → IsServed w s → IsServed (grow w n) s
  grow-IsServed w s n at =
      let asked = take (w.needed - length w.incoming) w.input in
      let bytes =
        take-AreBytes n asked (take-AreBytes (w.needed - length w.incoming) w.input at.waits) in
      record {
        heard = append-AreBytes w.incoming (take n asked) at.heard bytes;
        waits = drop-AreBytes (length (take n asked)) w.input at.waits;
        tables = at.tables;
      }

  after_read-Served :
      (progress : Bool) (w : Worker) (s : Server) (call : TlsCall)
      → IsServed w s
      → Served (after_read host progress w s call)
  unfolding after_read
  after_read-Served progress w s (moves n) at =
      if_cases Served (length (grow w n).incoming == w.needed) (whole host (grow w n) s)
        (goes_on true (grow w n) s) (λ _. whole-Served (grow w n) s (grow-IsServed w s n at))
        (λ _. grow-IsServed w s n at)
  after_read-Served progress w s (refused want_read) at = same-IsServed _ s at refl refl at.tables
  after_read-Served progress w s (refused want_write) at = same-IsServed _ s at refl refl at.tables
  after_read-Served progress w s (refused zero_return) at =
      if_cases Served (not (length w.incoming == 0)) (returns (err econnreset) w s)
        (returns done w s) (λ _. at) (λ _. at)
  after_read-Served progress w s (refused (fatal none)) at =
      same-IsServed _ s at refl refl at.tables
  after_read-Served progress w s (refused (fatal (some e))) at =
      same-IsServed _ s at refl refl at.tables

  after_write-Served :
      (w : Worker) (s : Server) (call : TlsCall) → IsServed w s → Served (after_write w s call)
  unfolding after_write
  after_write-Served w s (moves n) at = same-IsServed _ s at refl refl at.tables
  after_write-Served w s (refused want_read) at = same-IsServed _ s at refl refl at.tables
  after_write-Served w s (refused want_write) at = same-IsServed _ s at refl refl at.tables
  after_write-Served w s (refused zero_return) at = at
  after_write-Served w s (refused (fatal none)) at = same-IsServed _ s at refl refl at.tables
  after_write-Served w s (refused (fatal (some e))) at = same-IsServed _ s at refl refl at.tables

  then_read-Served :
      (turn : Turn Server) (phase : Phase Server)
      → Keeps turn
      → Served phase
      → Served (then_read host turn phase)
  unfolding then_read read_phase
  then_read-Served turn (returns r w s) keeps at = at
  then_read-Served turn (goes_on progress w s) keeps at =
      let s' = turn.before_handle s in
      let at' : IsServed w s' = same-IsServed w s' at refl refl (keeps.2 s at.tables) in
      if_cases Served (is_waiting w.write_wait) (goes_on progress w s')
        (after_read host progress w s' turn.read) (λ _. at')
        (λ _. after_read-Served progress w s' turn.read at')

  transfer-Served :
      (turn : Turn Server) (w w' : Worker) (s : Server)
      → Keeps turn
      → IsServed w' s
      → Served (transfer host turn w (ok w', s))
  unfolding transfer write_phase
  transfer-Served turn w w' s keeps at = then_read-Served turn (write_phase w' s turn.write) keeps (
      if_cases Served (length w'.outgoing == 0 || is_pollout w'.read_wait) (goes_on false w' s)
        (after_write w' s turn.write) (λ _. at) (λ _. after_write-Served w' s turn.write at))

  fill-Served :
      (turn : Turn Server) (w : Worker) (out : Result (Option OutgoingFrame) × Server)
      → Keeps turn
      → IsServed w out.1
      → Served (transfer host turn w (fill w out))
  unfolding fill transfer
  fill-Served turn w (err e, s) keeps at = at
  fill-Served turn w (ok none, s) keeps at = transfer-Served turn w w s keeps at
  fill-Served turn w (ok (some f), s) keeps at =
      transfer-Served turn w (record w { outgoing = frame_bytes f; sent = 0 }) s keeps
        (same-IsServed _ s at refl refl at.tables)

  poll_phase-Served :
      (result : PollResult) (phase : Phase Server) → Served phase → Served (poll_phase result phase)
  unfolding poll_phase
  poll_phase-Served result (returns r w s) at = at
  poll_phase-Served result (goes_on true w s) at = at
  poll_phase-Served ready (goes_on false w s) at = at
  poll_phase-Served invalid_descriptor (goes_on false w s) at = at
  poll_phase-Served wake_fd_broken (goes_on false w s) at = at
  poll_phase-Served (poll_failed e) (goes_on false w s) at = at

  proceed-Served :
      (answer : Result (Unit {0})) (w : Worker) (s : Server) (rest : Phase Server)
      → IsServed w s
      → Served rest
      → Served (proceed answer w s rest)
  unfolding proceed
  proceed-Served (ok u) w s rest at h = h
  proceed-Served (err e) w s rest at h = at

  moved-Served :
      (turn : Turn Server) (w : Worker) (s : Server)
      → Keeps turn
      → IsServed w s
      → Served (
          transfer host turn w
            (if length w.outgoing == 0 then fill w (host.take_frame s) else (ok w, s)))
  moved-Served turn w s keeps at = elim (Bool-cases (length w.outgoing == 0)) [
    | inl idle ↦ rw idle (
        fill-Served turn w (host.take_frame s) keeps (
          same-IsServed w _ at refl refl (record {
            registry = take_outgoing_frame-IsValid at.tables.registry id;
            routes = at.tables.routes;
          })))
    | inr busy ↦ rw busy (transfer-Served turn w w s keeps at)
  ]

  round-Served :
      (turn : Turn Server) (w : Worker) (s : Server)
      → Keeps turn
      → IsServed w s
      → Served (round host turn w s)
  unfolding round
  round-Served turn w s keeps at =
      let seen = turn.before_status s in
      let at_seen : IsServed w seen = same-IsServed w seen at refl refl (keeps.0 s at.tables) in
      let at_taking : IsServed w (turn.before_take seen) =
        same-IsServed w (turn.before_take seen) at refl refl (keeps.1 seen at_seen.tables) in
      proceed-Served (wakeup turn.wakeup_error) w s _ at (
        proceed-Served (host.output_status seen) w seen _ at_seen (
          poll_phase-Served turn.poll _
            (moved-Served turn w (turn.before_take seen) keeps at_taking)))

  abbrev pub AllKeep : List (Turn Server) → Type 0
  AllKeep [] = Unit {0}
  AllKeep (turn ∷ turns) = Keeps turn × AllKeep turns

  run_from :
      (turns : List (Turn Server)) (w : Worker) (s : Server)
      → AllKeep turns
      → IsServed w s
      → Served (run host w s turns)
  unfolding run
  run_from [] w s keep at = at
  run_from (turn ∷ turns) w s keep at =
      after (round host turn w s) (round-Served turn w s keep.0 at) (run_from turns)
    where
      after :
          (phase : Phase Server)
          → Served phase
          → ((w : Worker) (s : Server) → AllKeep turns → IsServed w s → Served (run host w s turns))
          → Served (elim phase as (λ _. Phase Server) [
            | goes_on progress w' s' ↦ run host w' s' turns
            | returns r w' s' ↦ returns r w' s'
          ])
      after (goes_on progress w' s') h rest = rest w' s' keep.1 h
      after (returns r w' s') h rest = h

  -- From a server whose two tables are valid, the loop of a client's worker with the operations of the table of
  -- clients and the handler of frames, on whatever bytes the client sends, however OpenSSL cuts them, and
  -- between calls of other threads that keep the tables valid, leads to a server whose two tables are
  -- valid, at every point and when the loop has returned.
  pub run-Served :
      (input : List ℕ) (turns : List (Turn Server)) (s : Server)
      → AreBytes input
      → IsServer s
      → AllKeep turns
      → Served (run host (start_worker input) s turns)
  run-Served input turns s bytes v keep =
      run_from turns (start_worker input) s keep (record { heard = tt; waits = bytes; tables = v })

-- `run_client_worker`: the event counter of the client and what fcntl returns, then the loop.
unfoldable pub run_client_worker :
    Os → Result (Unit {0}) → ℕ → List ℕ → List ℕ → List (Turn Server) → Server → Phase Server
unfolding run
run_client_worker os fcntl id name input turns s =
    elim (Registry.get_client_wake_fd s.registry id) [
      | err e ↦ returns (err e) (start_worker input) s
      | ok none ↦ returns (err enoent) (start_worker input) s
      | ok (some fd) ↦
          proceed fcntl (start_worker input) s
            (run (server_host os id name) (start_worker input) s turns)
    ]
