-- ===== src/Login/Thread.antt =====
-- The whole thread of a client, with the worker of `Worker.Serve`, on the tables of the server.
use cipher_chat.Prelude.{ℕ, ◌+◌, ◌<◌, inl, inr, some, List, [], ◌∷◌, if_cases, Option-cases}
use cipher_chat.Status.{Result, Result-cases, ok, err}
use cipher_chat.Text.{memchr, codes}
use cipher_chat.Wire.{u64_mod}
use cipher_chat.Wire.RoundTrip.{AreBytes}
use cipher_chat.Registry
use cipher_chat.Registry.{Os, Registry, Connection}
use cipher_chat.Registry.Invariant
use cipher_chat.Registry.Preserve.{
  add_client-IsValid, activate_client-IsValid, remove_client-IsValid,
}
use cipher_chat.ServerFiles.{Server}
use cipher_chat.ServerFiles.Invariant.{IsServer, abort_file_routes_for_client-IsServer}
use cipher_chat.Worker.{Phase, goes_on, returns, proceed, run, start_worker}
use cipher_chat.Worker.Serve.{server_host, Served, AllKeep, IsServed, run-Served, run_client_worker}
use cipher_chat.Login.{
  ThreadEnd, refused, Peer, with_table, remove, send_welcome_message, leave, after_activate,
  after_welcome, after_add, handle_client,
}

-- The client sends bytes, and other threads keep the tables valid.
pub record IsPeer (os : Os) (peer : Peer) : Type 0 where
  pub bytes : AreBytes peer.input
  pub turns : (id : ℕ) (name : List ℕ) → AllKeep os id name peer.turns
  pub add : (s : Server) → IsServer s → IsServer (peer.before_add s)
  pub activate : (s : Server) → IsServer s → IsServer (peer.before_activate s)
  pub worker : (s : Server) → IsServer s → IsServer (peer.before_worker s)
  pub remove : (s : Server) → IsServer s → IsServer (peer.before_remove s)
  pub abort : (s : Server) → IsServer s → IsServer (peer.before_abort s)

with_table-IsServer :
    {s : Server} {r : Registry} → IsServer s → Invariant.IsValid r → IsServer (with_table s r)
with_table-IsServer v w = record { registry = w; routes = v.routes }

module _ (os : Os) (peer : Peer) (others : IsPeer os peer) where
  removed-IsServer :
      {s : Server} (index : ℕ) → IsServer s → IsServer (remove os peer (peer.before_remove s) index)
  removed-IsServer {s} index v =
      let w = others.remove s v in with_table-IsServer w (remove_client-IsValid w.registry index)

  leave-IsServer :
      (index id : ℕ) (name : List ℕ) (phase : Phase Server)
      → Served os id name phase
      → IsServer (leave os peer index id phase).1
  unfolding leave
  leave-IsServer index id name (goes_on progress w s) at = at.tables
  leave-IsServer index id name (returns result w s) at =
      abort_file_routes_for_client-IsServer os
        (others.abort (remove os peer (peer.before_remove s) index)
          (removed-IsServer index at.tables))
        id

  unserved :
      (id : ℕ) (name : List ℕ) {s : Server}
      → IsServer s
      → IsServed os id name (start_worker peer.input) s
  unserved id name v = record { heard = tt; waits = others.bytes; tables = v }

  proceeds :
      (id : ℕ) (name : List ℕ) {s : Server} (answer : Result (Unit {0})) (rest : Phase Server)
      → IsServer s
      → Served os id name rest
      → Served os id name (proceed answer (start_worker peer.input) s rest)
  unfolding proceed
  proceeds id name (ok u) rest v at = at
  proceeds id name (err e) rest v at = unserved id name v

  run_client_worker-Served :
      (id : ℕ) (name : List ℕ) {s : Server}
      → IsServer s
      → Served os id name (run_client_worker os peer.fcntl id name peer.input peer.turns s)
  unfolding run_client_worker
  run_client_worker-Served id name {s} v =
      elim (Result-cases (Registry.get_client_wake_fd s.registry id)) [
        | inl (e, h) ↦ rw (run_client_worker, h) (unserved id name v)
        | inr (fd, h) ↦ elim (Option-cases fd) [
          | inl k ↦ rw (run_client_worker, h, k) (unserved id name v)
          | inr (n, k) ↦
              rw (run_client_worker, h, k)
                (proceeds id name peer.fcntl
                  (run (server_host os id name) (start_worker peer.input) s peer.turns) v
                  (run-Served os id name peer.input peer.turns s others.bytes v
                    (others.turns id name)))
        ]
      ]

  after_activate-IsServer :
      (index id : ℕ) (name : List ℕ) {s : Server} (result : Result (Unit {0}))
      → IsServer s
      → IsServer (after_activate os peer index id name s result).1
  unfolding after_activate
  after_activate-IsServer index id name (err e) v = removed-IsServer index v
  after_activate-IsServer index id name {s} (ok u) v =
      leave-IsServer index id name _ (run_client_worker-Served id name (others.worker s v))

  after_welcome-IsServer :
      (index id : ℕ) (name : List ℕ) {s : Server} (result : Result (Unit {0}))
      → IsServer s
      → IsServer (after_welcome os peer index id name s result).1
  unfolding after_welcome
  after_welcome-IsServer index id name (err e) v = removed-IsServer index v
  after_welcome-IsServer index id name {s} (ok u) v =
      let w = others.activate s v in
      after_activate-IsServer index id name
        (Registry.activate_client (peer.before_activate s).registry index).0
        (with_table-IsServer w (activate_client-IsValid w.registry index))

  after_add-IsServer :
      (name : List ℕ) {s : Server} (result : Result ℕ)
      → IsServer s
      → IsServer (after_add os peer name s result).1
  unfolding after_add
  after_add-IsServer name (err e) v = v
  after_add-IsServer name {s} (ok index) v =
      after_welcome-IsServer index (Registry.get_client_id s.registry index) name
        (send_welcome_message os peer name) v

  -- From a server whose two tables are valid and whose 64-bit ids have not run out, the whole thread of a client,
  -- whatever bytes it sends and however the thread ends, leads to one whose two tables are valid, if what other
  -- threads do in between keeps them so.
  handle_client-IsServer :
      {s : Server} (connection : Connection) (received : Result (List ℕ))
      → IsServer s
      → (peer.before_add s).registry.next_client_id + 1 < u64_mod
      → IsServer (handle_client os peer s connection received).1
  unfolding handle_client
  handle_client-IsServer connection (err e) v small = v
  handle_client-IsServer connection (ok []) v small = v
  handle_client-IsServer {s} connection (ok (c ∷ cs)) v small =
      let w = others.add s v in
      let out = Registry.add_client os (peer.before_add s).registry connection (c ∷ cs) in
      if_cases (λ (o : ThreadEnd × Server). IsServer o.1) (memchr 0 (c ∷ cs))
        (refused (some (codes "Login failed: invalid username.\n")), s)
        (after_add os peer (c ∷ cs) (with_table (peer.before_add s) out.1) out.0) (λ _. v)
        (λ _.
          after_add-IsServer (c ∷ cs) out.0
            (with_table-IsServer w (add_client-IsValid w.registry os connection (c ∷ cs) small)))
