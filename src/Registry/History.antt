-- ===== src/Registry/History.antt =====
-- Sequences of calls on the table of clients. Each call holds `clients_mutex`, so what the threads of
-- the clients do is some sequence of calls.
use cipher_chat.Prelude.{ℕ, ◌+◌, ◌<◌, List}
use cipher_chat.Wire.{u64_mod}
use cipher_chat.Registry.{
  Os, Registry, Connection, start, init_clients, add_client, activate_client, remove_client,
  register_client_public_key, queue_frame, take_outgoing_frame,
}
use cipher_chat.Registry.Invariant.{IsValid, start-IsValid, init_clients-IsValid}
use cipher_chat.Registry.Preserve.{
  activate_client-IsValid, remove_client-IsValid, register_client_public_key-IsValid,
  take_outgoing_frame-IsValid, queue_frame-IsValid, add_client-IsValid,
}

-- A call. A client is added while its id and the next one fit in 64 bits.
pub data Call (os : Os) (r : Registry) : Registry → Type 0 where
  adds :
      (connection : Connection) (username : List ℕ)
      → r.next_client_id + 1 < u64_mod
      → Call os r (add_client os r connection username).1
  activates : (index : ℕ) → Call os r (activate_client r index).1
  removes : (index : ℕ) → Call os r (remove_client r index).1
  registers :
      (client_id : ℕ) (key : List ℕ) → Call os r (register_client_public_key r client_id key).1
  queues :
      (client_id type : ℕ) (payload : List ℕ)
      → Call os r (queue_frame os r client_id type payload).1
  takes : (client_id : ℕ) → Call os r (take_outgoing_frame r client_id).1

-- From the static table, or from what `init_clients` makes of it before the first call.
pub data Running (os : Os) : Registry → Type 0 where
  at_start : Running os start
  at_init : Running os (init_clients start)
  after : {r u : Registry} → Running os r → Call os r u → Running os u

Call-IsValid : {os : Os} {r u : Registry} → Call os r u → IsValid r → IsValid u
Call-IsValid {os} (adds connection username small) v =
    add_client-IsValid v os connection username small
Call-IsValid (activates index) v = activate_client-IsValid v index
Call-IsValid (removes index) v = remove_client-IsValid v index
Call-IsValid (registers client_id key) v = register_client_public_key-IsValid v client_id key
Call-IsValid {os} (queues client_id type payload) v =
    queue_frame-IsValid v os client_id type payload
Call-IsValid (takes client_id) v = take_outgoing_frame-IsValid v client_id

-- However the calls interleave from the start of the program or from `init_clients`, and whatever malloc, eventfd and its
-- writes return, as long as the 64-bit ids do not run out: the table has 100 slots, no two connected
-- clients have the same id or the same name, no id is 0, and every queue is counted, holds at most 128
-- frames and is empty in a free slot.
pub Running-IsValid : {os : Os} {r : Registry} → Running os r → IsValid r
Running-IsValid at_start = start-IsValid
Running-IsValid at_init = init_clients-IsValid start-IsValid
Running-IsValid (after reach call) = Call-IsValid call (Running-IsValid reach)
