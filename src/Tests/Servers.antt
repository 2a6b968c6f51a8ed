-- ===== src/Tests/Servers.antt =====
-- Witnesses on the clients and the server.
use cipher_chat.Prelude.{ℕ, true, false, some, List, [], ◌∷◌, ◌++◌, arith}
use cipher_chat.Status.{ok}
use cipher_chat.Text.{codes}
use cipher_chat.Wire.{frame_text}
use cipher_chat.FileRoutes.{init}
use cipher_chat.FileRoutes.Invariant.{init-IsValid}
use cipher_chat.Registry.{
  Os, Registry, Connection, written, start, add_client, activate_client, queue_frame,
  take_outgoing_frame,
}
use cipher_chat.Registry.Invariant.{IsValid}
use cipher_chat.Registry.History.{Running, at_start, after, adds, activates, Running-IsValid}
use cipher_chat.Registry.Queue.{
  Queued, Taken, OthersKept, queue_frame-Queued, take_outgoing_frame-Taken,
}
use cipher_chat.Prelude.{◌≡◌, ◌<◌, ◌+◌, refl, replicate}
use cipher_chat.Prelude.Table.{find, find_index}
use cipher_chat.Status.{done}
use cipher_chat.Text.{isspace, iscntrl, str_eq}
use cipher_chat.Wire.{u64_mod, write_u32}
use cipher_chat.FileRoutes.{
  add, accept_chunk, is_route, is_free, allocate_outbound_id, in_use, forwards_as,
}
use cipher_chat.FileRoutes.Slots.{view}
use cipher_chat.FileRoutes.Preserve.{add-IsValid, accept_chunk-IsValid}
use cipher_chat.FileRoutes.Abort.{departed}
use cipher_chat.Registry.{has_id, register_client_public_key}
use cipher_chat.ServerFiles.{recipient_disconnected, text}
use cipher_chat.ServerFiles.Departure.{notice, notices, tell, abort_file_routes_for_client-Departed}
use cipher_chat.Worker.{returns, start_worker}
use cipher_chat.Login.{Peer, served, leave}
use cipher_chat.Login.Leave.{IsThere, IsGone, HasLeft, leave-HasLeft}
use cipher_chat.ServerFiles.{Server, route_file_frame, abort_file_routes_for_client}
use cipher_chat.ServerFiles.Invariant.{IsServer, route_file_frame-IsServer}

-- Every call of the operating system succeeds.
abbrev os : Os
os = record { malloc = λ n. true; eventfd = λ n. ok 5; eventfd_write = λ n. written }

abbrev connected : Connection
connected = record { socket_fd = some 4; ssl = some 1; tls_io_failed = false }

abbrev alice : List ℕ
alice = codes "alice"

-- Alice has logged in.
abbrev alice_ready : Registry
alice_ready = (activate_client (add_client os start connected alice).1 0).1

alice_ready-Running : Running os alice_ready
unfolding start
alice_ready-Running = after (after at_start (adds connected alice (omega arith))) (activates 0)

Running-IsValid_example : IsValid alice_ready
Running-IsValid_example = Running-IsValid alice_ready-Running

alice_ready-IsValid : IsValid alice_ready
alice_ready-IsValid = Running-IsValid alice_ready-Running

queue_frame-Queued_example :
    let out = queue_frame os alice_ready 1 frame_text (codes "hi") in
    Queued alice_ready 1 (record { type = frame_text; payload = codes "hi" }) out
    × OthersKept alice_ready out.1 1
queue_frame-Queued_example = queue_frame-Queued os 1 frame_text (codes "hi") alice_ready-IsValid

take_outgoing_frame-Taken_example :
    let out = take_outgoing_frame alice_ready 1 in
    Taken alice_ready 1 out × OthersKept alice_ready out.1 1
take_outgoing_frame-Taken_example = take_outgoing_frame-Taken 1 alice_ready-IsValid

abbrev server : Server
server = record { registry = alice_ready; routes = init }

server-IsServer : IsServer server
server-IsServer = record { registry = alice_ready-IsValid; routes = init-IsValid }

-- Alice sends the begin of a file to bob, who is not there.
abbrev begin_frame : List ℕ
begin_frame =
    0
    ∷ 0
    ∷ 0
    ∷ 0
    ∷ 7
    ∷ 0
    ∷ 0
    ∷ 0
    ∷ 0
    ∷ 0
    ∷ 0
    ∷ 1
    ∷ 44
    ∷ 0
    ∷ 3
    ∷ 0
    ∷ 9
    ∷ (codes "bob" ++ codes "notes.txt")

route_file_frame-IsServer_example : IsServer (route_file_frame os server 1 alice begin_frame).1
route_file_frame-IsServer_example =
    route_file_frame-IsServer os server-IsServer 1 alice begin_frame (ground arith)

abbrev bob : List ℕ
bob = codes "bob"

-- Bob has logged in too, and each sends the other a file.
abbrev both_ready : Registry
both_ready = (activate_client (add_client os alice_ready connected bob).1 1).1

ids_left : alice_ready.next_client_id + 1 < u64_mod
unfolding start add_client activate_client find_index isspace iscntrl
ids_left = omega arith

both_ready-IsValid : IsValid both_ready
both_ready-IsValid =
    Running-IsValid (after (after alice_ready-Running (adds connected bob ids_left)) (activates 1))

abbrev busy : Server
busy = record {
  registry = both_ready;
  routes = (add (add init 1 7 2 100 false).table 2 9 1 50 false).table;
}

busy-IsServer : IsServer busy
busy-IsServer = record {
  registry = both_ready-IsValid;
  routes =
      add-IsValid
        (add-IsValid init-IsValid 1 7 2 100 (ground arith) (omega arith) false (λ _. ground arith))
        2 9 1 50 (ground arith) (omega arith) false (λ _. ground arith);
}

abort_file_routes_for_client-Departed_example :
    let after = abort_file_routes_for_client os busy 1 in
    IsServer after
    × ((a x : ℕ) → view after.routes.routes a x ≡ departed 1 (view busy.routes.routes a x))
    × (after.registry ≡ tell os busy.registry (notices 1 busy.routes.routes))
abort_file_routes_for_client-Departed_example =
    abort_file_routes_for_client-Departed os 1 (ground arith) busy-IsServer

-- Both are told.
both_told :
    notices 1 busy.routes.routes
    ≡ (2, 3, 0 ∷ 0 ∷ 0 ∷ 1 ∷ []) ∷ (2, frame_text, text recipient_disconnected) ∷ []
unfolding notices notice add find find_index init is_route is_free allocate_outbound_id in_use
    forwards_as write_u32
both_told = refl

-- The thread of bob counts ten bytes of the file that he sends to alice.
abbrev bob_sends : Server → Server
bob_sends s = record s { routes = (accept_chunk s.routes 2 9 10).2 }

bob_sends-IsServer : (s : Server) → IsServer s → IsServer (bob_sends s)
bob_sends-IsServer s v = record {
  registry = v.registry;
  routes = accept_chunk-IsValid v.routes 2 9 (ground arith) 10;
}

-- A client that nothing more comes from, while bob goes on sending.
abbrev peer : Peer
peer = record {
  send_message = λ text. done;
  fcntl = done;
  input = [];
  turns = [];
  before_add = λ s. s;
  before_activate = λ s. s;
  before_worker = λ s. s;
  before_remove = bob_sends;
  before_abort = bob_sends;
}

alice-IsThere : IsThere 0 1 busy
unfolding start add_client activate_client find_index isspace iscntrl has_id str_eq
alice-IsThere = record { tables = busy-IsServer; inside = omega arith; holds = refl }

bob_sends-IsThere : (s : Server) → IsThere 0 1 s → IsThere 0 1 (bob_sends s)
bob_sends-IsThere s there = record {
  tables = bob_sends-IsServer s there.tables;
  inside = there.inside;
  holds = there.holds;
}

bob_sends-IsGone : (s : Server) → IsGone 1 s → IsGone 1 (bob_sends s)
bob_sends-IsGone s gone = record {
  tables = bob_sends-IsServer s gone.tables;
  given = gone.given;
  old = gone.old;
  nobody = gone.nobody;
}

leave-HasLeft_example :
    let (end, left) = leave os peer 0 1 (returns done (start_worker []) busy) in
    (end ≡ served done) × HasLeft 1 left
leave-HasLeft_example =
    leave-HasLeft os peer 0 1 done (start_worker []) bob_sends-IsThere bob_sends-IsGone
      alice-IsThere

-- Alice, whose key is registered, sends an encrypted message to bob.
abbrev ciphertext_payload : List ℕ
ciphertext_payload = 3 ∷ (bob ++ (replicate 24 0 ++ (replicate 32 1 ++ replicate 20 2)))

abbrev with_key : Registry
with_key = (register_client_public_key both_ready 1 (replicate 32 1)).1
