-- ===== src/Chat.antt =====
-- server.c: what the server does with a frame of a client that has logged in: text commands, the
-- registry of public keys, encrypted messages, and file frames by `ServerFiles`.
pub mod Invariant
pub mod Routing
use cipher_chat.Prelude.{
  ℕ, ◌+◌, ◌-◌, ◌%◌, Bool, true, false, not, ◌||◌, Option, none, some, List, [], ◌∷◌, ◌++◌, ltb, leb,
  ◌==◌, if◌then◌else◌, length, take, drop,
}
use cipher_chat.Status.{Result, ok, err}
use cipher_chat.Text.{codes, isspace, iscntrl, memchr, str_eq}
use cipher_chat.Wire.{
  buffer_size, message_max_size, frame_max_size, username_size, chat_public_key_size,
  chat_nonce_size, chat_mac_size, chat_overhead, frame_text, frame_request_pk, frame_peer_pk,
  frame_ciphertext, frame_register_pk, byte,
}
use cipher_chat.CommandParser
use cipher_chat.CommandParser.{ParsedCommand, parse_command}
use cipher_chat.Registry
use cipher_chat.Registry.{Os, Registry}
use cipher_chat.ServerFiles.{Server, route_file_frame}

-- The loop of `copy_peer_name`; a zero byte is a control character.
unfoldable pub plain_name : List ℕ → Bool
plain_name [] = true
plain_name (c ∷ cs) = if isspace c || iscntrl c then false else plain_name cs

unfoldable pub copy_peer_name : List ℕ → Option (List ℕ)
unfolding plain_name
copy_peer_name bytes =
    if length bytes == 0 || leb username_size (length bytes)
    then none
    else if plain_name bytes
    then some bytes
    else none

abbrev pub max_message_size : ℕ
max_message_size = message_max_size

abbrev pub key_or_nothing : Result (List ℕ) → List ℕ
key_or_nothing (ok key) = key
key_or_nothing (err e) = []

-- What the recipient gets: the sender's login name in place of the routing name.
abbrev pub forwarded : List ℕ → List ℕ → List ℕ
forwarded sender_username encrypted = length sender_username % 256 ∷ (sender_username ++ encrypted)

unfoldable pub private_text : List ℕ → List ℕ → List ℕ
private_text sender message =
    codes "Private message from " ++ (sender ++ (codes ": " ++ (message ++ codes "\n")))

unfoldable pub broadcast_text : List ℕ → List ℕ → List ℕ
broadcast_text sender message =
    codes "Broadcast from " ++ (sender ++ (codes ": " ++ (message ++ codes "\n")))

abbrev pub text_of : Option (List ℕ) → List ℕ
text_of none = []
text_of (some s) = s

abbrev pub with_registry : Server → Registry → Server
with_registry s r = record s { registry = r }

module _ (os : Os) where
  -- A FRAME_REGISTER_PK.
  unfoldable pub register_key : Registry → ℕ → List ℕ → Registry
  register_key r client_id payload =
      if not (length payload == chat_public_key_size)
      then Registry.send_invalid_command os r client_id (codes "public key registration")
      else let (result, r') = Registry.register_client_public_key r client_id payload in
        elim result [
          | ok u ↦ r'
          | err e ↦ Registry.send_invalid_command os r' client_id (codes "public key registration")
        ]

  -- A FRAME_REQUEST_PK: the name and, if the peer has one, its key.
  unfoldable pub request_key : Registry → ℕ → List ℕ → Registry
  unfolding copy_peer_name
  request_key r client_id payload = elim (copy_peer_name payload) [
    | none ↦ Registry.send_invalid_command os r client_id (codes "public key request")
    | some recipient ↦
        (Registry.send_frame os r client_id frame_peer_pk (
          length payload % 256
          ∷ (payload
              ++ key_or_nothing
                  (Registry.get_client_public_key r (Registry.find_client_id r recipient))))).1
  ]

  -- The reply to the sender if the forwarded frame could not be queued.
  unfoldable pub or_user_not_found : ℕ → List ℕ → Result (Unit {0}) × Registry → Registry
  or_user_not_found client_id recipient (ok u, r) = r
  or_user_not_found client_id recipient (err e, r) =
      let error = Registry.user_not_found recipient in
      if ltb (length error) buffer_size then (Registry.send_text os r client_id error).1 else r

  -- Behind the routing name: the bounds, the claimed key and the forwarding.
  unfoldable pub forward_ciphertext : Registry → ℕ → List ℕ → List ℕ → List ℕ → Registry
  unfolding or_user_not_found
  forward_ciphertext r client_id sender_username recipient encrypted =
      let claimed_key = take chat_public_key_size (drop chat_nonce_size encrypted) in
      if ltb max_message_size
        (length encrypted - chat_nonce_size - chat_public_key_size - chat_mac_size)
      then Registry.send_invalid_command os r client_id (codes "encrypted message too long")
      else elim (Registry.get_client_public_key r client_id) [
        | err e ↦
            Registry.send_invalid_command os r client_id (codes "encrypted message sender key")
        | ok sender_key ↦
            if not (str_eq sender_key claimed_key)
            then Registry.send_invalid_command os r client_id (codes "encrypted message sender key")
            else if length sender_username == 0
                || leb username_size (length sender_username)
                || ltb (frame_max_size - 1) (length (forwarded sender_username encrypted))
            then Registry.send_invalid_command os r client_id (codes "encrypted message sender")
            else or_user_not_found client_id recipient (
                Registry.send_frame os r (Registry.find_client_id r recipient) frame_ciphertext
                  (forwarded sender_username encrypted))
      ]

  -- A FRAME_CIPHERTEXT. `copy_peer_name` reads `payload[0]` bytes, which are there: the length test
  -- stands before it.
  unfoldable pub route_ciphertext : Registry → ℕ → List ℕ → List ℕ → Registry
  unfolding copy_peer_name forward_ciphertext
  route_ciphertext r client_id sender_username payload =
      let name_length = byte payload 0 in
      if ltb (length payload) chat_overhead || ltb (length payload) (chat_overhead + name_length)
      then Registry.send_invalid_command os r client_id (codes "encrypted message")
      else elim (copy_peer_name (take name_length (drop 1 payload))) [
        | none ↦ Registry.send_invalid_command os r client_id (codes "encrypted message")
        | some recipient ↦
            forward_ciphertext r client_id sender_username recipient
              (drop (1 + name_length) payload)
      ]

  unfoldable pub handle_encrypted_chat : Registry → ℕ → List ℕ → List ℕ → Registry
  unfolding register_key request_key route_ciphertext
  handle_encrypted_chat r client_id sender_username frame =
      if byte frame 0 == frame_register_pk
      then register_key r client_id (drop 1 frame)
      else if byte frame 0 == frame_request_pk
      then request_key r client_id (drop 1 frame)
      else route_ciphertext r client_id sender_username (drop 1 frame)

  unfoldable pub send_private : Registry → ℕ → List ℕ → List ℕ → List ℕ → Registry
  unfolding private_text
  send_private r client_id sender_username username message =
      if ltb message_max_size (length message)
      then (Registry.send_text os r client_id (codes "Message too long (maximum: 65536 bytes)\n")).1
      else if ltb (length (private_text sender_username message)) frame_max_size
      then Registry.send_message_to_client os r username (private_text sender_username message)
          client_id
      else r

  unfoldable pub send_broadcast : Registry → ℕ → List ℕ → List ℕ → Registry
  unfolding broadcast_text
  send_broadcast r client_id sender_username message =
      if ltb message_max_size (length message)
      then (Registry.send_text os r client_id (codes "Message too long (maximum: 65536 bytes)\n")).1
      else if ltb (length (broadcast_text sender_username message)) frame_max_size
      then Registry.send_message_to_all_clients os r (broadcast_text sender_username message)
          client_id
      else r

  -- The switch of `handle_command`. `false` ends the connection. A `/file` is no command of the
  -- server, so it falls to the default.
  unfoldable pub run_command : Registry → ℕ → List ℕ → List ℕ → ParsedCommand → Bool × Registry
  unfolding send_private send_broadcast
  run_command r client_id sender_username original parsed = elim parsed.type [
    | CommandParser.private_message ↦ (
      true,
      send_private r client_id sender_username (text_of parsed.username) (text_of parsed.message),
    )
    | CommandParser.broadcast_message ↦
        (true, send_broadcast r client_id sender_username (text_of parsed.message))
    | CommandParser.list_users ↦ (true, Registry.log_connected_clients os r client_id)
    | CommandParser.help ↦ (true, Registry.send_help os r client_id)
    | CommandParser.quit ↦ (false, r)
    | CommandParser.invalid ↦ (true, Registry.send_invalid_command os r client_id original)
    | _ ↦ (true, Registry.send_unknown_command os r client_id original)
  ]

  unfoldable pub handle_command : Registry → ℕ → List ℕ → List ℕ → Bool × Registry
  unfolding run_command
  handle_command r client_id sender_username command =
      run_command r client_id sender_username command (parse_command command)

  unfoldable pub handle_text : Server → ℕ → List ℕ → List ℕ → Bool × Server
  unfolding handle_command
  handle_text s client_id username command =
      if length command == 0 || memchr 0 command
      then (
        true,
        with_registry s
            (Registry.send_invalid_command os s.registry client_id (codes "binary text frame")),
      )
      else let (goes_on, r) = handle_command s.registry client_id username command in
        (goes_on, with_registry s r)

  unfoldable pub handle_client_frame : Server → ℕ → List ℕ → List ℕ → Bool × Server
  unfolding handle_text handle_encrypted_chat
  handle_client_frame s client_id username frame =
      if byte frame 0 == frame_text
      then handle_text s client_id username (drop 1 frame)
      else if byte frame 0 == frame_register_pk
          || byte frame 0 == frame_request_pk
          || byte frame 0 == frame_ciphertext
      then (true, with_registry s (handle_encrypted_chat s.registry client_id username frame))
      else if byte frame 0 == frame_peer_pk
      then (
        true,
        with_registry s (
            Registry.send_invalid_command os s.registry client_id
              (codes "unexpected public key reply")),
      )
      else (true, (route_file_frame os s client_id username frame).1)
