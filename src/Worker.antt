-- ===== src/Worker.antt =====
-- server_worker.c: the loop of the thread that serves a client. OpenSSL, poll and the event counter are
-- not part of the repository: what they answer in one round of the loop is a `Turn`. The bytes that
-- the peer has sent and that wait to be read stand in `input`, those that have gone out in `output`.
-- Round the calls of the registry, the state is that of the whole server, which other threads change.
pub mod Framing
pub mod Split
pub mod Sending
pub mod Serve
use cipher_chat.Prelude.{
  ℕ, ◌+◌, ◌-◌, ◌%◌, Bool, true, false, not, ◌&&◌, ◌||◌, Option, none, some, List, [], ◌∷◌, ◌++◌,
  ltb, ◌==◌, if◌then◌else◌, length, take, drop,
}
use cipher_chat.Status.{
  Errno, Result, ok, err, done, einval, emsgsize, eproto, econnreset, epipe, os_error,
}
use cipher_chat.Wire.{u32_mod, frame_max_size, byte, read_u32, write_u32, is_valid_frame_type}
use cipher_chat.Registry.{OutgoingFrame}

-- What the loop calls: the registry for this client, and the handler of a frame.
pub record Host (S : Type 0) : Type 0 where
  pub output_status : S → Result (Unit {0})
  pub take_frame : S → Result (Option OutgoingFrame) × S
  pub handle_frame : S → List ℕ → Bool × S

-- `read_wait` and `write_wait`: 0, POLLIN or POLLOUT.
pub data Wait : Type 0 where
  no_wait pollin pollout : Wait

-- What SSL_get_error tells of a call that did not succeed; a fatal error with errno if it is
-- SSL_ERROR_SYSCALL with errno set.
pub data Refusal : Type 0 where
  want_read want_write zero_return : Refusal
  fatal : Option ℕ → Refusal

pub data Retry : Type 0 where
  again : Wait → Retry
  end_of_file : Retry
  failed : Errno → Retry

unfoldable pub tls_retry : Refusal → Retry
tls_retry want_read = again pollin
tls_retry want_write = again pollout
tls_retry zero_return = end_of_file
tls_retry (fatal none) = failed econnreset
tls_retry (fatal (some e)) = failed (os_error e)

-- A call that succeeds moves so many bytes, at most those that it is asked for.
pub data TlsCall : Type 0 where
  moves : ℕ → TlsCall
  refused : Refusal → TlsCall

pub data PollResult : Type 0 where
  ready invalid_descriptor wake_fd_broken : PollResult
  poll_failed : ℕ → PollResult

-- One round: what other threads do to the server before the three points at which the loop looks at
-- it, an error of eventfd_read, and what the calls answer if they are made.
pub record Turn (S : Type 0) : Type 0 where
  pub before_status : S → S
  pub before_take : S → S
  pub before_handle : S → S
  pub wakeup_error : Option ℕ
  pub write : TlsCall
  pub read : TlsCall
  pub poll : PollResult

-- `received` is the length of `incoming`, `outgoing_length` that of `outgoing`.
pub record Worker : Type 0 where
  pub incoming : List ℕ
  pub needed : ℕ
  pub read_wait : Wait
  pub outgoing : List ℕ
  pub sent : ℕ
  pub write_wait : Wait
  pub tls_io_failed : Bool
  pub input : List ℕ
  pub output : List ℕ

abbrev pub start_worker : List ℕ → Worker
start_worker input = record {
  incoming = [];
  needed = 4;
  read_wait = no_wait;
  outgoing = [];
  sent = 0;
  write_wait = no_wait;
  tls_io_failed = false;
  input = input;
  output = [];
}

-- What a part of the round leads to: it goes on, having moved bytes or not, or the loop returns.
pub data Phase (S : Type 0) : Type 0 where
  goes_on : Bool → Worker → S → Phase S
  returns : Result (Unit {0}) → Worker → S → Phase S

abbrev pub is_pollout : Wait → Bool
is_pollout pollout = true
is_pollout _ = false

abbrev pub is_waiting : Wait → Bool
is_waiting no_wait = false
is_waiting _ = true

-- The bytes of a frame on the connection.
unfoldable pub frame_bytes : OutgoingFrame → List ℕ
frame_bytes f = write_u32 ((1 + length f.payload) % u32_mod) ++ ((f.type % 256) ∷ f.payload)

-- `memcpy` of the next frame into the buffer, if there is one.
unfoldable pub fill : {S : Type 0} → Worker → Result (Option OutgoingFrame) × S → Result Worker × S
unfolding frame_bytes
fill w (err e, s) = (err e, s)
fill w (ok none, s) = (ok w, s)
fill w (ok (some f), s) = (ok (record w { outgoing = frame_bytes f; sent = 0 }), s)

-- The bytes that a call of SSL_write_ex takes are the next of those that are left.
abbrev pub advance : Worker → ℕ → Worker
advance w n =
    let written = take n (drop w.sent w.outgoing) in
    record w {
      output = w.output ++ written;
      sent = w.sent + length written;
      write_wait = no_wait;
      outgoing = if w.sent + length written == length w.outgoing then [] else w.outgoing;
    }

unfoldable pub after_write : {S : Type 0} → Worker → S → TlsCall → Phase S
unfolding tls_retry
after_write w s (moves n) = goes_on true (advance w n) s
after_write w s (refused r) = elim (tls_retry r) [
  | again wait ↦ goes_on false (record w { write_wait = wait }) s
  | end_of_file ↦ returns (err epipe) w s
  | failed e ↦ let broken : Worker = record w { tls_io_failed = true } in returns (err e) broken s
]

unfoldable pub write_phase : {S : Type 0} → Worker → S → TlsCall → Phase S
unfolding after_write
write_phase w s call =
    if length w.outgoing == 0 || is_pollout w.read_wait
    then goes_on false w s
    else after_write w s call

-- A whole frame behind the four bytes of its length.
unfoldable pub hear : {S : Type 0} → Host S → Worker → S → Phase S
hear host w s =
    let frame = drop 4 w.incoming in
    let (goes_further, s') = host.handle_frame s frame in
    if not (is_valid_frame_type (byte frame 0))
    then returns (err eproto) w s
    else if goes_further
    then goes_on true (record w { incoming = []; needed = 4 }) s'
    else returns done w s'

-- The buffer holds what the loop asked for: the length, or length and frame.
unfoldable pub whole : {S : Type 0} → Host S → Worker → S → Phase S
unfolding hear
whole host w s =
    let n = read_u32 w.incoming in
    if w.needed == 4
    then if n == 0 || ltb frame_max_size n
      then returns (err emsgsize) w s
      else goes_on true (record w { needed = 4 + n }) s
    else hear host w s

-- The bytes that a call of SSL_read_ex hands over are the next of those that wait.
abbrev pub grow : Worker → ℕ → Worker
grow w n =
    let asked = w.needed - length w.incoming in
    let bytes = take n (take asked w.input) in
    record w {
      incoming = w.incoming ++ bytes;
      input = drop (length bytes) w.input;
      read_wait = no_wait;
    }

unfoldable pub after_read : {S : Type 0} → Host S → Bool → Worker → S → TlsCall → Phase S
unfolding whole tls_retry
after_read host progress w s (moves n) =
    if length (grow w n).incoming == w.needed
    then whole host (grow w n) s
    else goes_on true (grow w n) s
after_read host progress w s (refused r) = elim (tls_retry r) [
  | again wait ↦ goes_on progress (record w { read_wait = wait }) s
  | end_of_file ↦
      if not (length w.incoming == 0) then returns (err econnreset) w s else returns done w s
  | failed e ↦ let broken : Worker = record w { tls_io_failed = true } in returns (err e) broken s
]

unfoldable pub read_phase : {S : Type 0} → Host S → Bool → Worker → S → TlsCall → Phase S
unfolding after_read
read_phase host progress w s call =
    if is_waiting w.write_wait then goes_on progress w s else after_read host progress w s call

-- The wait for an event, if nothing has moved.
unfoldable pub poll_phase : {S : Type 0} → PollResult → Phase S → Phase S
poll_phase result (returns r w s) = returns r w s
poll_phase result (goes_on true w s) = goes_on true w s
poll_phase ready (goes_on false w s) = goes_on false w s
poll_phase invalid_descriptor (goes_on false w s) = returns (err (os_error 9)) w s
poll_phase wake_fd_broken (goes_on false w s) = returns (err (os_error 5)) w s
poll_phase (poll_failed e) (goes_on false w s) = returns (err (os_error e)) w s

-- The application write and what follows it.
unfoldable pub then_read : {S : Type 0} → Host S → Turn S → Phase S → Phase S
unfolding read_phase
then_read host turn (returns r w s) = returns r w s
then_read host turn (goes_on progress w s) =
    read_phase host progress w (turn.before_handle s) turn.read

-- A frame to send has been looked for.
unfoldable pub transfer : {S : Type 0} → Host S → Turn S → Worker → Result Worker × S → Phase S
unfolding write_phase then_read
transfer host turn w (err e, s) = returns (err e) w s
transfer host turn w (ok w', s) = then_read host turn (write_phase w' s turn.write)

-- An error of the event counter is that of `eventfd_read`, but EAGAIN.
abbrev pub wakeup : Option ℕ → Result (Unit {0})
wakeup none = done
wakeup (some e) = err (os_error e)

-- `if (... == -1) return -1;` and the rest of the round.
unfoldable pub proceed : {S : Type 0} → Result (Unit {0}) → Worker → S → Phase S → Phase S
proceed (err e) w s rest = returns (err e) w s
proceed (ok u) w s rest = rest

-- One round of `for (;;)`.
unfoldable pub round : {S : Type 0} → Host S → Turn S → Worker → S → Phase S
unfolding proceed fill transfer poll_phase
round host turn w s =
    let seen = turn.before_status s in
    let taking = turn.before_take seen in
    proceed (wakeup turn.wakeup_error) w s (
      proceed (host.output_status seen) w seen (
        poll_phase turn.poll (
          transfer host turn w
            (if length w.outgoing == 0 then fill w (host.take_frame taking) else (ok w, taking)))))

-- The loop over the rounds that the environment allows. `goes_on` at the end means that it still runs.
unfoldable pub run : {S : Type 0} → Host S → Worker → S → List (Turn S) → Phase S
unfolding round
run host w s [] = goes_on true w s
run host w s (turn ∷ turns) = elim (round host turn w s) [
  | goes_on progress w' s' ↦ run host w' s' turns
  | returns r w' s' ↦ returns r w' s'
]
