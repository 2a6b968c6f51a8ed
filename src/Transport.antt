-- ===== src/Transport.antt =====
-- common.c: whole messages and frames over a TLS connection. OpenSSL is not part of the repository:
-- what its calls return is a list of events, one for each call of SSL_read_ex or SSL_write_ex. A list
-- that runs out stands for a call that has not returned yet. A connection that is NULL or closed is
-- not represented.
pub mod Receive
pub mod Send
pub mod Completes
pub mod RoundTrip
use cipher_chat.Prelude.{
  ℕ, zero, suc, ◌+◌, ◌-◌, ◌%◌, Bool, true, false, not, ◌||◌, Option, none, some, List, [], ◌∷◌,
  ◌++◌, ltb, leb, ◌==◌, if◌then◌else◌, length, take, drop,
}
use cipher_chat.Status.{
  Errno, Result, ok, err, einval, emsgsize, eproto, econnreset, epipe, eagain, os_error,
}
use cipher_chat.Wire.{
  u32_mod, message_max_size, frame_max_size, byte, read_u32, write_u32, is_valid_frame_type,
}

-- What a call of SSL_read_ex finds: decrypted bytes, of which it hands over at most as many as are
-- asked for; WANT_READ or WANT_WRITE, and whether errno is EAGAIN; the peer's close_notify; a fatal
-- error, with errno if it is SSL_ERROR_SYSCALL with errno set.
pub data ReadEvent : Type 0 where
  arrived : List ℕ → ReadEvent
  want_read want_write : Bool → ReadEvent
  closed : ReadEvent
  broken : Option ℕ → ReadEvent

-- What a call of SSL_write_ex does: it takes so many bytes; it asks for a retry, and how the poll
-- before it ends; close_notify; a fatal error.
pub data PollResult : Type 0 where
  ready : PollResult
  poll_failed : ℕ → PollResult
  invalid_descriptor : PollResult

pub data WriteEvent : Type 0 where
  accepted : ℕ → WriteEvent
  retry : PollResult → WriteEvent
  closed_by_peer : WriteEvent
  write_broken : Option ℕ → WriteEvent

-- `tls_io_failed` and what is still to come.
pub data Received {ℓ} (A : Type ℓ) : Type ℓ where
  waiting : Received A
  received : Result A → Bool → List ReadEvent → Received A

abbrev pub errno_of : Option ℕ → Errno
errno_of none = econnreset
errno_of (some e) = os_error e

-- The loop of `recv_all`, with the bytes still needed and those that have come. At close_notify it
-- returns what has come.
unfoldable pub recv_loop : ℕ → List ℕ → List ReadEvent → Received (List ℕ)
recv_loop need acc [] = if need == 0 then received (ok acc) false [] else waiting
recv_loop need acc (arrived bs ∷ es) =
    let more = recv_loop (need - length bs) (acc ++ bs) es in
    if need == 0
    then received (ok acc) false (arrived bs ∷ es)
    else if leb (length bs) need
    then more
    else received (ok (acc ++ take need bs)) false (arrived (drop need bs) ∷ es)
recv_loop need acc (want_read timed_out ∷ es) =
    let more = recv_loop need acc es in
    if need == 0
    then received (ok acc) false (want_read timed_out ∷ es)
    else if timed_out
    then received (err eagain) false es
    else more
recv_loop need acc (want_write timed_out ∷ es) =
    let more = recv_loop need acc es in
    if need == 0
    then received (ok acc) false (want_write timed_out ∷ es)
    else if timed_out
    then received (err eagain) true es
    else more
recv_loop need acc (closed ∷ es) =
    if need == 0 then received (ok acc) false (closed ∷ es) else received (ok acc) false es
recv_loop need acc (broken e ∷ es) =
    if need == 0
    then received (ok acc) false (broken e ∷ es)
    else received (err (errno_of e)) true es

unfoldable pub recv_all : Bool → ℕ → List ReadEvent → Received (List ℕ)
unfolding recv_loop
recv_all tls_io_failed length events =
    if tls_io_failed then received (err econnreset) true events else recv_loop length [] events

-- A `recv_all` that must bring `length` bytes; fewer are a reset connection.
unfoldable pub exactly : ℕ → Received (List ℕ) → Received (List ℕ)
exactly n waiting = waiting
exactly n (received (err e) failed es) = received (err e) failed es
exactly n (received (ok bytes) failed es) =
    received (if length bytes == n then ok bytes else err econnreset) failed es

-- The length at the head of a message or frame: `none` at a clean end of the connection.
unfoldable pub header : Received (List ℕ) → Received (Option ℕ)
header waiting = waiting
header (received (err e) failed es) = received (err e) failed es
header (received (ok bytes) failed es) =
    received
      (if length bytes == 0
        then ok none
        else if length bytes == 4
        then ok (some (read_u32 bytes))
        else err econnreset)
      failed es

-- The bytes behind the header: none at the clean end, an error if the length is refused.
unfoldable pub payload_of : (ℕ → Bool) → Received (Option ℕ) → Received (List ℕ)
unfolding exactly recv_all
payload_of refused waiting = waiting
payload_of refused (received (err e) failed es) = received (err e) failed es
payload_of refused (received (ok none) failed es) = received (ok []) failed es
payload_of refused (received (ok (some n)) failed es) =
    let body = exactly n (recv_all failed n es) in
    if refused n then received (err emsgsize) failed es else body

unfoldable pub receive_message : Bool → ℕ → List ReadEvent → Received (List ℕ)
unfolding recv_all header payload_of
receive_message tls_io_failed capacity events =
    if ltb capacity 2
    then received (err einval) tls_io_failed events
    else payload_of (λ n. n == 0 || ltb message_max_size n || leb capacity n)
        (header (recv_all tls_io_failed 4 events))

-- The test of the type byte. The empty list is the clean end.
unfoldable pub typed : Received (List ℕ) → Received (List ℕ)
typed waiting = waiting
typed (received (err e) failed es) = received (err e) failed es
typed (received (ok []) failed es) = received (ok []) failed es
typed (received (ok (type ∷ payload)) failed es) =
    received (if is_valid_frame_type type then ok (type ∷ payload) else err eproto) failed es

unfoldable pub receive_frame : Bool → ℕ → List ReadEvent → Received (List ℕ)
unfolding recv_all header payload_of typed
receive_frame tls_io_failed capacity events =
    if capacity == 0
    then received (err einval) tls_io_failed events
    else typed (
        payload_of (λ n. n == 0 || ltb frame_max_size n || ltb capacity n)
          (header (recv_all tls_io_failed 4 events)))

-- What the call returns, the bytes that have gone out on the connection, `tls_io_failed` and what is
-- still to come.
pub data Sent : Type 0 where
  unfinished : List ℕ → Sent
  sent : Result ℕ → List ℕ → Bool → List WriteEvent → Sent

-- The loop of `send_all`, with `total_sent`, the bytes left and those that have gone out.
unfoldable pub send_loop : ℕ → List ℕ → List ℕ → List WriteEvent → Sent
send_loop total_sent [] out es = sent (ok total_sent) out false es
send_loop total_sent (b ∷ bs) out [] = unfinished out
send_loop total_sent (b ∷ bs) out (accepted n ∷ es) =
    let written = take n (b ∷ bs) in
    send_loop (total_sent + length written) (drop n (b ∷ bs)) (out ++ written) es
send_loop total_sent (b ∷ bs) out (retry ready ∷ es) = send_loop total_sent (b ∷ bs) out es
send_loop total_sent (b ∷ bs) out (retry (poll_failed e) ∷ es) = sent (err (os_error e)) out true es
send_loop total_sent (b ∷ bs) out (retry invalid_descriptor ∷ es) =
    sent (err (os_error 9)) out true es
send_loop total_sent (b ∷ bs) out (closed_by_peer ∷ es) = sent (err epipe) out false es
send_loop total_sent (b ∷ bs) out (write_broken e ∷ es) = sent (err (errno_of e)) out true es

unfoldable pub send_all : Bool → List ℕ → List ℕ → List WriteEvent → Sent
unfolding send_loop
send_all tls_io_failed bytes out events =
    if tls_io_failed then sent (err econnreset) out true events else send_loop 0 bytes out events

-- `if (send_all(...) == -1) return -1;` and the next send.
unfoldable pub then_send : Sent → List ℕ → Sent
unfolding send_all
then_send (unfinished out) bytes = unfinished out
then_send (sent (err e) out failed es) bytes = sent (err e) out failed es
then_send (sent (ok u) out failed es) bytes = send_all failed bytes out es

-- `return (ssize_t)n` behind the last send.
unfoldable pub then_return : ℕ → Sent → Sent
then_return n (unfinished out) = unfinished out
then_return n (sent (err e) out failed es) = sent (err e) out failed es
then_return n (sent (ok u) out failed es) = sent (ok n) out failed es

unfoldable pub send_message : Bool → List ℕ → List WriteEvent → Sent
unfolding send_all then_send then_return
send_message tls_io_failed message events =
    if length message == 0
    then sent (err einval) [] tls_io_failed events
    else if ltb message_max_size (length message)
    then sent (err emsgsize) [] tls_io_failed events
    else then_return (length message) (
        then_send (send_all tls_io_failed (write_u32 (length message % u32_mod)) [] events) message)

-- `payload_length != 0 && send_all(...)`: with no payload the third send is left out.
unfoldable pub send_payload : Sent → List ℕ → Sent
unfolding then_send
send_payload s [] = s
send_payload s (b ∷ bs) = then_send s (b ∷ bs)

unfoldable pub send_frame : Bool → ℕ → List ℕ → List WriteEvent → Sent
unfolding send_all then_send send_payload then_return
send_frame tls_io_failed type payload events =
    if not (is_valid_frame_type type)
    then sent (err einval) [] tls_io_failed events
    else if ltb (frame_max_size - 1) (length payload)
    then sent (err emsgsize) [] tls_io_failed events
    else then_return (1 + length payload) (
        send_payload
          (then_send (send_all tls_io_failed (write_u32 ((1 + length payload) % u32_mod)) [] events)
            ((type % 256) ∷ []))
          payload)
