-- ===== src/Login.antt =====
-- server.c: `handle_client`, the thread of a client from its first message to its departure, and
-- `send_welcome_message`. The TLS handshake, the socket timeouts and the log lines are left out. Each
-- call on the tables of the server is one step; what other threads do between two of them is a
-- parameter, and so is what receive_message and send_message return (`Transport`). The worker is that
-- of `Worker.Serve`.
pub mod Leave
pub mod Thread
use cipher_chat.Prelude.{
  ℕ, Bool, true, false, Option, none, some, List, [], ◌∷◌, ◌++◌, ◌==◌, ltb, if◌then◌else◌, length,
}
use cipher_chat.Status.{Errno, Result, ok, err, done, emsgsize, eagain, eexist}
use cipher_chat.Text.{codes, memchr, fits}
use cipher_chat.Wire.{buffer_size}
use cipher_chat.Registry
use cipher_chat.Registry.{Os, Registry, Connection}
use cipher_chat.Worker.{Turn, Phase, goes_on, returns}
use cipher_chat.Worker.Serve.{run_client_worker}
use cipher_chat.ServerFiles.{Server, abort_file_routes_for_client}

-- How the thread ends: without a login, with the message sent if there is one; after a welcome that
-- could not be sent; without being activated; or with what the worker returns. `serving`: its loop still runs.
pub data ThreadEnd : Type 0 where
  refused : Option (List ℕ) → ThreadEnd
  not_welcomed : Errno → ThreadEnd
  not_activated : Errno → ThreadEnd
  served : Result (Unit {0}) → ThreadEnd
  serving : ThreadEnd

unfoldable pub welcome_text : List ℕ → List ℕ
welcome_text username = codes "Welcome to CipherChat, " ++ (username ++ codes "!\n")

-- `errno == EEXIST ? ... : ...`
unfoldable pub login_error : Errno → List ℕ
login_error eexist = codes "Login failed: username is already in use.\n"
login_error _ = codes "Login failed: invalid username or server is full.\n"

-- `errno == EAGAIN`: a timeout is told to the client.
unfoldable pub name_error : Errno → Option (List ℕ)
name_error eagain = some (codes "Login failed: username timeout.\n")
name_error _ = none

abbrev pub with_table : Server → Registry → Server
with_table s r = record s { registry = r }

-- What the thread meets: the answers of send_message and of fcntl, the bytes that the client sends and
-- the rounds of the worker's loop, and what other threads do to the server before the calls on its
-- tables.
pub record Peer : Type 0 where
  pub send_message : List ℕ → Result (Unit {0})
  pub fcntl : Result (Unit {0})
  pub input : List ℕ
  pub turns : List (Turn Server)
  pub before_add : Server → Server
  pub before_activate : Server → Server
  pub before_worker : Server → Server
  pub before_remove : Server → Server
  pub before_abort : Server → Server

module _ (os : Os) (peer : Peer) where
  unfoldable pub send_welcome_message : List ℕ → Result (Unit {0})
  unfolding welcome_text
  send_welcome_message username =
      if fits (welcome_text username) buffer_size
      then peer.send_message (welcome_text username)
      else err emsgsize

  abbrev pub remove : Server → ℕ → Server
  remove s index = with_table s (Registry.remove_client s.registry index).1

  -- `remove_client` and `abort_file_routes_for_client`, behind the worker.
  unfoldable pub leave : ℕ → ℕ → Phase Server → ThreadEnd × Server
  leave index client_id (goes_on progress w s) = (serving, s)
  leave index client_id (returns result w s) = (
    served result,
    abort_file_routes_for_client os (peer.before_abort (remove (peer.before_remove s) index))
        client_id,
  )

  -- Behind `activate_client`.
  unfoldable pub after_activate : ℕ → ℕ → List ℕ → Server → Result (Unit {0}) → ThreadEnd × Server
  unfolding leave run_client_worker
  after_activate index client_id username s (err e) =
      (not_activated e, remove (peer.before_remove s) index)
  after_activate index client_id username s (ok u) = leave index client_id (
      run_client_worker os peer.fcntl client_id username peer.input peer.turns
        (peer.before_worker s))

  -- Behind `send_welcome_message`.
  unfoldable pub after_welcome : ℕ → ℕ → List ℕ → Server → Result (Unit {0}) → ThreadEnd × Server
  unfolding after_activate
  after_welcome index client_id username s (err e) =
      (not_welcomed e, remove (peer.before_remove s) index)
  after_welcome index client_id username s (ok u) =
      let before = peer.before_activate s in
      let (result, r) = Registry.activate_client before.registry index in
      after_activate index client_id username (with_table before r) result

  -- Behind `add_client`.
  unfoldable pub after_add : List ℕ → Server → Result ℕ → ThreadEnd × Server
  unfolding send_welcome_message after_welcome login_error
  after_add username s (err e) = (refused (some (login_error e)), s)
  after_add username s (ok index) =
      after_welcome index (Registry.get_client_id s.registry index) username s
        (send_welcome_message username)

  -- `handle_client`, with what receive_message brings.
  unfoldable pub handle_client : Server → Connection → Result (List ℕ) → ThreadEnd × Server
  unfolding name_error after_add
  handle_client s connection (err e) = (refused (name_error e), s)
  handle_client s connection (ok []) = (refused none, s)
  handle_client s connection (ok (c ∷ cs)) =
      let before = peer.before_add s in
      let (result, r) = Registry.add_client os before.registry connection (c ∷ cs) in
      if memchr 0 (c ∷ cs)
      then (refused (some (codes "Login failed: invalid username.\n")), s)
      else after_add (c ∷ cs) (with_table before r) result
