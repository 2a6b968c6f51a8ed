-- ===== src/Registry.antt =====
-- client_manager.h and client_manager.c: the table of connected clients and their queues of outgoing
-- frames. The static array and the id counter are the record `Registry`. Each function holds
-- `clients_mutex` while it reads and writes the table, so a call is one step. An int that is -1 for
-- "none" (a descriptor, an index) and a pointer that may be NULL are options. The linked list of
-- frames is the list of them, oldest first; `outgoing_count` is kept beside it, as in the source.
pub mod Preserve
pub mod Invariant
pub mod Queue
pub mod History
pub mod Ids
use cipher_chat.Prelude.{
  ℕ, zero, suc, ◌+◌, ◌-◌, ◌%◌, Bool, true, false, not, ◌&&◌, ◌||◌, Option, none, some, List, [],
  ◌∷◌, ◌++◌, ltb, leb, ◌==◌, if◌then◌else◌, length, get_or, set, replicate, take, map,
}
use cipher_chat.Prelude.Table.{find_index}
use cipher_chat.Status.{
  Errno, Result, ok, err, done, einval, emsgsize, enoent, enospc, eexist, enobufs, enomem, os_error,
}
use cipher_chat.Text.{isspace, iscntrl, str_eq, codes, fits}
use cipher_chat.Wire.{
  u64_mod, buffer_size, frame_max_size, username_size, chat_public_key_size, frame_text,
  is_valid_frame_type,
}

abbrev pub max_clients : ℕ
max_clients = 100

abbrev pub max_outgoing_frames : ℕ
max_outgoing_frames = 128

abbrev pub invalid_client_id : ℕ
invalid_client_id = 0

-- `payload_length` is the length of the payload.
pub record OutgoingFrame : Type 0 where
  pub type : ℕ
  pub payload : List ℕ

-- network.h: `ssl` is NULL or a handle.
pub record Connection : Type 0 where
  pub socket_fd : Option ℕ
  pub ssl : Option ℕ
  pub tls_io_failed : Bool

pub record Client : Type 0 where
  pub connection : Connection
  pub wake_fd : Option ℕ
  pub username : List ℕ
  pub active : Bool
  pub ready : Bool
  pub id : ℕ
  pub public_key : List ℕ
  pub has_public_key : Bool
  pub outgoing : List OutgoingFrame
  pub outgoing_count : ℕ
  pub outgoing_failed : Bool

-- `calls` counts the calls of the operating system, which answers the n-th one by `Os`.
pub record Registry : Type 0 where
  pub clients : List Client
  pub next_client_id : ℕ
  pub calls : ℕ

-- How `do notified = eventfd_write(fd, 1); while (notified == -1 && errno == EINTR)` ends.
pub data Notified : Type 0 where
  written would_block : Notified
  failed : ℕ → Notified

-- The operating system at its n-th call: what malloc, eventfd and eventfd_write return.
pub record Os : Type 0 where
  pub malloc : ℕ → Bool
  pub eventfd : ℕ → Result ℕ
  pub eventfd_write : ℕ → Notified

abbrev pub no_connection : Connection
no_connection = record { socket_fd = none; ssl = none; tls_io_failed = false }

abbrev pub zero_key : List ℕ
zero_key = replicate chat_public_key_size 0

-- `init_clients` at one entry: the key keeps its old bytes.
abbrev pub cleared : Client → Client
cleared c = record c {
  connection = no_connection;
  wake_fd = none;
  username = [];
  active = false;
  ready = false;
  id = invalid_client_id;
  has_public_key = false;
  outgoing = [];
  outgoing_count = 0;
  outgoing_failed = false;
}

unfoldable pub init_clients : Registry → Registry
init_clients r = record r { clients = map cleared r.clients; next_client_id = 1 }

-- Static storage at the start of the program.
abbrev pub zero_client : Client
zero_client = record {
  connection = record { socket_fd = some 0; ssl = none; tls_io_failed = false };
  wake_fd = some 0;
  username = [];
  active = false;
  ready = false;
  id = 0;
  public_key = zero_key;
  has_public_key = false;
  outgoing = [];
  outgoing_count = 0;
  outgoing_failed = false;
}

unfoldable pub start : Registry
start = record { clients = replicate max_clients zero_client; next_client_id = 1; calls = 0 }

-- The loop over the characters of a name.
unfoldable pub plain : List ℕ → Bool
plain [] = true
plain (c ∷ cs) = if iscntrl c || isspace c then false else plain cs

unfoldable pub username_is_valid : List ℕ → Bool
unfolding plain
username_is_valid username =
    if length username == 0 || leb username_size (length username) then false else plain username

-- The id and the counter behind it.
unfoldable pub allocate_client_id : ℕ → ℕ × ℕ
allocate_client_id next =
    let second = (next + 1) % u64_mod in
    if next == invalid_client_id then (second, (second + 1) % u64_mod) else (next, second)

abbrev pub client_at : List Client → ℕ → Client
client_at clients i = get_or clients i zero_client

abbrev pub store : Registry → ℕ → Client → Registry
store r i c = record r { clients = set r.clients i c }

unfoldable pub is_named : List ℕ → Client → Bool
is_named username c = c.active && str_eq c.username username

unfoldable pub is_free : Client → Bool
is_free c = not c.active

-- The entry that `add_client` fills.
abbrev pub admitted : Client → Connection → ℕ → ℕ → List ℕ → Client
admitted c connection fd id username = record c {
  wake_fd = some fd;
  outgoing_failed = false;
  connection = connection;
  active = true;
  ready = false;
  id = id;
  has_public_key = false;
  username = username;
}

abbrev pub admit : Registry → ℕ → Connection → ℕ → List ℕ → ℕ × ℕ → Registry
admit r i connection fd username (id, next) = record {
  clients = set r.clients i (admitted (client_at r.clients i) connection fd id username);
  next_client_id = next;
  calls = r.calls + 1;
}

-- `connection->socket_fd < 0 || connection->ssl == NULL`
abbrev pub is_open : Connection → Bool
is_open c = elim c.socket_fd [
  | none ↦ false
  | some fd ↦ elim c.ssl [ none ↦ false | some p ↦ true ]
]

-- The one loop of the source looks for the name and for the first free slot together; it leaves at
-- the name, so the free slot counts only if no active client has the name.
unfoldable pub add_client : Os → Registry → Connection → List ℕ → Result ℕ × Registry
unfolding username_is_valid allocate_client_id is_named is_free
add_client os r connection username =
    if not (is_open connection) || not (username_is_valid username)
    then (err einval, r)
    else elim (find_index (is_named username) r.clients) [
      | some i ↦ (err eexist, r)
      | none ↦ elim (find_index is_free r.clients) [
        | none ↦ (err enospc, r)
        | some i ↦ elim (os.eventfd r.calls) [
          | err e ↦ (err e, record r { calls = r.calls + 1 })
          | ok fd ↦ (ok i, admit r i connection fd username (allocate_client_id r.next_client_id))
        ]
      ]
    ]

unfoldable pub activate_client : Registry → ℕ → Result (Unit {0}) × Registry
activate_client r index =
    if leb max_clients index
    then (err einval, r)
    else if not (client_at r.clients index).active
    then (err enoent, r)
    else (done, store r index (record (client_at r.clients index) { ready = true }))

-- The table after `remove_client`, and the connection that the caller closes, if any.
unfoldable pub remove_client : Registry → ℕ → Option Connection × Registry
remove_client r index =
    if leb max_clients index
    then (none, r)
    else if not (client_at r.clients index).active
    then (none, r)
    else (
      some (client_at r.clients index).connection,
      store r index (record (cleared (client_at r.clients index)) { public_key = zero_key }),
    )

unfoldable pub get_client_id : Registry → ℕ → ℕ
get_client_id r index =
    if leb max_clients index
    then invalid_client_id
    else if (client_at r.clients index).active
    then (client_at r.clients index).id
    else invalid_client_id

unfoldable pub is_ready_named : List ℕ → Client → Bool
is_ready_named username c = c.active && (c.ready && str_eq c.username username)

unfoldable pub find_client_id : Registry → List ℕ → ℕ
unfolding is_ready_named
find_client_id r username = elim (find_index (is_ready_named username) r.clients) [
  | none ↦ invalid_client_id
  | some i ↦ (client_at r.clients i).id
]

unfoldable pub has_id : ℕ → Client → Bool
has_id client_id c = c.active && c.id == client_id

unfoldable pub is_ready : ℕ → Client → Bool
is_ready client_id c = c.active && (c.ready && c.id == client_id)

unfoldable pub register_client_public_key : Registry → ℕ → List ℕ → Result (Unit {0}) × Registry
unfolding is_ready
register_client_public_key r client_id key = elim (find_index (is_ready client_id) r.clients) [
  | none ↦ (err enoent, r)
  | some i ↦
      let c = client_at r.clients i in
      if c.has_public_key && not (str_eq c.public_key key)
      then (err einval, r)
      else (done, store r i (record c { public_key = key; has_public_key = true }))
]

unfoldable pub has_key : ℕ → Client → Bool
has_key client_id c = c.active && (c.ready && (c.id == client_id && c.has_public_key))

unfoldable pub get_client_public_key : Registry → ℕ → Result (List ℕ)
unfolding has_key
get_client_public_key r client_id = elim (find_index (has_key client_id) r.clients) [
  | none ↦ err enoent
  | some i ↦ ok (client_at r.clients i).public_key
]

-- What `queue_frame_to_client_id` does to the client it finds, the wake-up written first.
unfoldable pub enqueue_at :
    Registry → ℕ → Client → Notified → OutgoingFrame → Result (Unit {0}) × Registry
enqueue_at r i c notified frame = elim notified [
  | failed e ↦ (err (os_error e), r)
  | _ ↦
      if leb max_outgoing_frames c.outgoing_count
      then (err enobufs, store r i (record c { outgoing_failed = true; ready = false }))
      else (
        done,
        store r i (record c {
          outgoing = c.outgoing ++ frame ∷ [];
          outgoing_count = c.outgoing_count + 1;
        }),
      )
]

unfoldable pub queue_frame : Os → Registry → ℕ → ℕ → List ℕ → Result (Unit {0}) × Registry
unfolding is_valid_frame_type is_ready enqueue_at
queue_frame os r client_id type payload =
    if client_id == invalid_client_id || not (is_valid_frame_type type)
    then (err einval, r)
    else if ltb (frame_max_size - 1) (length payload)
    then (err emsgsize, r)
    else if not (os.malloc r.calls)
    then (err enomem, record r { calls = r.calls + 1 })
    else elim (find_index (is_ready client_id) r.clients) [
      | none ↦ (err enoent, record r { calls = r.calls + 1 })
      | some i ↦
          enqueue_at (record r { calls = r.calls + 2 }) i (client_at r.clients i)
            (os.eventfd_write (r.calls + 1)) (record { type = type; payload = payload })
    ]

-- `send_frame_to_client_id`
unfoldable pub send_frame : Os → Registry → ℕ → ℕ → List ℕ → Result (Unit {0}) × Registry
unfolding queue_frame
send_frame = queue_frame

-- `send_text_to_client_id`
unfoldable pub send_text : Os → Registry → ℕ → List ℕ → Result (Unit {0}) × Registry
unfolding send_frame
send_text os r client_id message =
    if length message == 0 then (err einval, r) else send_frame os r client_id frame_text message

-- What `take_outgoing_frame` does to the client it finds: 1 and the frame, or 0.
unfoldable pub dequeue_at :
    Registry → ℕ → Client → List OutgoingFrame → Result (Option OutgoingFrame) × Registry
dequeue_at r i c [] = (ok none, r)
dequeue_at r i c (frame ∷ rest) = (
  ok (some frame),
  store r i (record c { outgoing = rest; outgoing_count = c.outgoing_count - 1 }),
)

unfoldable pub take_outgoing_frame : Registry → ℕ → Result (Option OutgoingFrame) × Registry
unfolding has_id dequeue_at
take_outgoing_frame r client_id =
    if client_id == invalid_client_id
    then (err einval, r)
    else elim (find_index (has_id client_id) r.clients) [
      | none ↦ (err enoent, r)
      | some i ↦
          let c = client_at r.clients i in
          if c.outgoing_failed then (err enobufs, r) else dequeue_at r i c c.outgoing
    ]

unfoldable pub get_client_wake_fd : Registry → ℕ → Result (Option ℕ)
unfolding has_id
get_client_wake_fd r client_id = elim (find_index (has_id client_id) r.clients) [
  | none ↦ err enoent
  | some i ↦ ok (client_at r.clients i).wake_fd
]

unfoldable pub client_output_status : Registry → ℕ → Result (Unit {0})
unfolding has_id
client_output_status r client_id = elim (find_index (has_id client_id) r.clients) [
  | none ↦ err enoent
  | some i ↦ if (client_at r.clients i).outgoing_failed then err enobufs else done
]

-- The texts of server_messages.c that these functions format.
unfoldable pub user_not_found : List ℕ → List ℕ
user_not_found name = codes "User " ++ (name ++ codes " not found\n")

unfoldable pub unknown_command : List ℕ → List ℕ
unknown_command command = codes "Unknown command: " ++ (command ++ codes "\n")

unfoldable pub invalid_command : List ℕ → List ℕ
invalid_command command = codes "Invalid command format: " ++ (command ++ codes "\n")

-- A text formatted into a buffer of `buffer_size` bytes and sent if it fits.
unfoldable pub send_formatted : Os → Registry → ℕ → List ℕ → Registry
unfolding send_text fits
send_formatted os r client_id text =
    if fits text buffer_size then (send_text os r client_id text).1 else r

-- `if (send_text_to_client_id(recipient_id, message) == 0) return;` and the error behind it.
unfoldable pub or_not_found : Os → ℕ → List ℕ → Result (Unit {0}) × Registry → Registry
unfolding send_formatted user_not_found
or_not_found os sender_id username (ok u, r) = r
or_not_found os sender_id username (err e, r) =
    send_formatted os r sender_id (user_not_found username)

unfoldable pub send_message_to_client : Os → Registry → List ℕ → List ℕ → ℕ → Registry
unfolding find_client_id or_not_found
send_message_to_client os r username message sender_id =
    if find_client_id r username == invalid_client_id
    then send_formatted os r sender_id (user_not_found username)
    else or_not_found os sender_id username (send_text os r (find_client_id r username) message)

-- The ids collected under the lock.
unfoldable pub recipients : ℕ → List Client → List ℕ
recipients sender_id [] = []
recipients sender_id (c ∷ cs) =
    if c.active && (c.ready && not (c.id == sender_id))
    then c.id ∷ recipients sender_id cs
    else recipients sender_id cs

unfoldable pub send_each : Os → Registry → List ℕ → List ℕ → Registry
unfolding send_text
send_each os r [] message = r
send_each os r (id ∷ ids) message = send_each os (send_text os r id message).1 ids message

unfoldable pub send_message_to_all_clients : Os → Registry → List ℕ → ℕ → Registry
unfolding recipients send_each
send_message_to_all_clients os r message sender_id =
    if length message == 0 then r else send_each os r (recipients sender_id r.clients) message

-- The loop of `log_connected_clients`: the text so far, cut before the first name that does not fit
-- in the buffer with a terminator.
unfoldable pub list_names : List ℕ → List Client → List ℕ
list_names text [] = text
list_names text (c ∷ cs) =
    let line = 10 ∷ c.username in
    let more = list_names (text ++ line) cs in
    let same = list_names text cs in
    let cut = text ++ take (buffer_size - length text - 1) line in
    if not c.active || not c.ready
    then same
    else if leb (buffer_size - length text) (length line)
    then cut
    else more

unfoldable pub log_connected_clients : Os → Registry → ℕ → Registry
unfolding list_names send_text
log_connected_clients os r client_id =
    (send_text os r client_id (list_names (codes "Connected clients:") r.clients)).1

abbrev pub help_message : List ℕ
help_message =
    codes "Available commands:\n"
    ++ (codes "  /msg <username> <message>  Send a private message\n"
        ++ (codes "  /broadcast <message>       Send a message to everyone\n"
            ++ (codes "  /file <username> <path>    Send a file privately\n"
                ++ (codes "  /list                      List connected users\n"
                    ++ (codes "  /help                      Display this help\n"
                        ++ codes "  /quit                      Disconnect from the server\n")))))

unfoldable pub send_help : Os → Registry → ℕ → Registry
unfolding send_text
send_help os r client_id = (send_text os r client_id help_message).1

unfoldable pub send_unknown_command : Os → Registry → ℕ → List ℕ → Registry
unfolding send_formatted unknown_command
send_unknown_command os r client_id command =
    send_formatted os r client_id (unknown_command command)

unfoldable pub send_invalid_command : Os → Registry → ℕ → List ℕ → Registry
unfolding send_formatted invalid_command
send_invalid_command os r client_id command =
    send_formatted os r client_id (invalid_command command)
