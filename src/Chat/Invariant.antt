-- ===== src/Chat/Invariant.antt =====
-- Every frame of a client that has logged in keeps what the tables promise.
use cipher_chat.Prelude.{
  ℕ, ◌+◌, ◌-◌, ◌%◌, ◌≡◌, refl, inl, inr, Bool, true, false, not, ◌||◌, List, [], ◌∷◌, ◌++◌, ltb,
  leb, ◌==◌, if◌then◌else◌, length, take, drop, Bool-cases, Option-cases,
}
use cipher_chat.Status.{Result, Result-cases, ok, err}
use cipher_chat.Text.{codes, fits, memchr, str_eq}
use cipher_chat.Wire.{
  buffer_size, frame_max_size, username_size, chat_public_key_size, chat_nonce_size, chat_mac_size,
  chat_overhead, frame_text, frame_request_pk, frame_peer_pk, frame_ciphertext, frame_register_pk,
  byte,
}
use cipher_chat.Wire.RoundTrip.{AreBytes}
use cipher_chat.CommandParser
use cipher_chat.CommandParser.{ClientCommand, ParsedCommand, parse_command}
use cipher_chat.Registry
use cipher_chat.Registry.{
  Os, Registry, invalid_client_id, send_text, send_formatted, or_not_found, find_client_id,
  user_not_found, send_message_to_client, recipients, send_each, send_message_to_all_clients,
  log_connected_clients, send_help, send_unknown_command, send_invalid_command,
  get_client_public_key, register_client_public_key, send_frame,
}
use cipher_chat.Registry.Invariant.{IsValid}
use cipher_chat.Registry.Preserve.{
  queue_frame-IsValid, send_text-IsValid, register_client_public_key-IsValid,
}
use cipher_chat.ServerFiles.{Server, route_file_frame}
use cipher_chat.ServerFiles.Invariant.{IsServer, route_file_frame-IsServer}
use cipher_chat.Chat.{
  copy_peer_name, max_message_size, key_or_nothing, forwarded, private_text, broadcast_text,
  text_of, with_registry, register_key, request_key, or_user_not_found, forward_ciphertext,
  route_ciphertext, handle_encrypted_chat, send_private, send_broadcast, run_command,
  handle_command, handle_text, handle_client_frame,
}

kept_if : (b : Bool) {r q : Registry} → IsValid r → IsValid q → IsValid (if b then r else q)
kept_if true v w = v
kept_if false v w = w

module _ (os : Os) where
  send_formatted-IsValid :
      {r : Registry} (id : ℕ) (text : List ℕ) → IsValid r → IsValid (send_formatted os r id text)
  unfolding send_formatted
  send_formatted-IsValid id text v =
      kept_if (fits text buffer_size) (send_text-IsValid v os id text) v

  invalid-IsValid :
      {r : Registry} (id : ℕ) (text : List ℕ)
      → IsValid r
      → IsValid (send_invalid_command os r id text)
  unfolding send_invalid_command
  invalid-IsValid id text v = send_formatted-IsValid id (Registry.invalid_command text) v

  unknown-IsValid :
      {r : Registry} (id : ℕ) (text : List ℕ)
      → IsValid r
      → IsValid (send_unknown_command os r id text)
  unfolding send_unknown_command
  unknown-IsValid id text v = send_formatted-IsValid id (Registry.unknown_command text) v

  or_not_found-IsValid :
      (id : ℕ) (name : List ℕ) (o : Result (Unit {0}) × Registry)
      → IsValid o.1
      → IsValid (or_not_found os id name o)
  unfolding or_not_found
  or_not_found-IsValid id name (ok u, r) v = v
  or_not_found-IsValid id name (err e, r) v = send_formatted-IsValid id (user_not_found name) v

  send_message_to_client-IsValid :
      {r : Registry} (name text : List ℕ) (id : ℕ)
      → IsValid r
      → IsValid (send_message_to_client os r name text id)
  unfolding send_message_to_client
  send_message_to_client-IsValid {r} name text id v =
      kept_if (find_client_id r name == invalid_client_id)
        (send_formatted-IsValid id (user_not_found name) v)
        (or_not_found-IsValid id name (send_text os r (find_client_id r name) text)
          (send_text-IsValid v os (find_client_id r name) text))

  send_each-IsValid :
      (ids : List ℕ) {r : Registry} (text : List ℕ) → IsValid r → IsValid (send_each os r ids text)
  unfolding send_each
  send_each-IsValid [] text v = v
  send_each-IsValid (id ∷ ids) text v = send_each-IsValid ids text (send_text-IsValid v os id text)

  send_message_to_all_clients-IsValid :
      {r : Registry} (text : List ℕ) (id : ℕ)
      → IsValid r
      → IsValid (send_message_to_all_clients os r text id)
  unfolding send_message_to_all_clients
  send_message_to_all_clients-IsValid {r} text id v =
      kept_if (length text == 0) v (send_each-IsValid (recipients id r.clients) text v)

  register_key-IsValid :
      {r : Registry} (id : ℕ) (payload : List ℕ)
      → IsValid r
      → IsValid (register_key os r id payload)
  unfolding register_key
  register_key-IsValid {r} id payload v =
      let told = codes "public key registration" in
      let w = register_client_public_key-IsValid v id payload in
      elim (Bool-cases (not (length payload == chat_public_key_size))) [
        | inl h ↦ rw h (invalid-IsValid id told v)
        | inr h ↦ elim (Result-cases (register_client_public_key r id payload).0) [
          | inl (e, k) ↦ rw (h, k) (invalid-IsValid id told w)
          | inr (u, k) ↦ rw (h, k) w
        ]
      ]

  request_key-IsValid :
      {r : Registry} (id : ℕ) (payload : List ℕ) → IsValid r → IsValid (request_key os r id payload)
  unfolding request_key send_frame
  request_key-IsValid {r} id payload v = elim (Option-cases (copy_peer_name payload)) [
    | inl h ↦ rw (request_key, h) (invalid-IsValid id (codes "public key request") v)
    | inr (name, h) ↦
        rw (request_key, h)
          (queue_frame-IsValid v os id frame_peer_pk (
            length payload % 256
            ∷ (payload ++ key_or_nothing (get_client_public_key r (find_client_id r name)))))
  ]

  or_user_not_found-IsValid :
      (id : ℕ) (name : List ℕ) (o : Result (Unit {0}) × Registry)
      → IsValid o.1
      → IsValid (or_user_not_found os id name o)
  unfolding or_user_not_found
  or_user_not_found-IsValid id name (ok u, r) v = v
  or_user_not_found-IsValid id name (err e, r) v =
      kept_if (ltb (length (user_not_found name)) buffer_size)
        (send_text-IsValid v os id (user_not_found name)) v

  forward_ciphertext-IsValid :
      {r : Registry} (id : ℕ) (sender recipient encrypted : List ℕ)
      → IsValid r
      → IsValid (forward_ciphertext os r id sender recipient encrypted)
  unfolding forward_ciphertext send_frame
  forward_ciphertext-IsValid {r} id sender recipient encrypted v =
      let bad_key = invalid-IsValid id (codes "encrypted message sender key") v in
      elim (Bool-cases (
        ltb max_message_size
          (length encrypted - chat_nonce_size - chat_public_key_size - chat_mac_size))) [
            | inl h ↦ rw h (invalid-IsValid id (codes "encrypted message too long") v)
            | inr h ↦ elim (Result-cases (get_client_public_key r id)) [
              | inl (e, k) ↦ rw (h, k) bad_key
              | inr (key, k) ↦
                  rw (h, k)
                    (kept_if
                      (not
                        (str_eq key (take chat_public_key_size (drop chat_nonce_size encrypted))))
                      bad_key
                      (kept_if
                        (length sender == 0
                          || leb username_size (length sender)
                          || ltb (frame_max_size - 1) (length (forwarded sender encrypted)))
                        (invalid-IsValid id (codes "encrypted message sender") v)
                        (or_user_not_found-IsValid id recipient _ (
                          queue_frame-IsValid v os (find_client_id r recipient) frame_ciphertext
                            (forwarded sender encrypted)))))
            ]
          ]

  route_ciphertext-IsValid :
      {r : Registry} (id : ℕ) (sender payload : List ℕ)
      → IsValid r
      → IsValid (route_ciphertext os r id sender payload)
  unfolding route_ciphertext
  route_ciphertext-IsValid {r} id sender payload v =
      let bad = invalid-IsValid id (codes "encrypted message") v in
      elim (Bool-cases (
        ltb (length payload) chat_overhead
        || ltb (length payload) (chat_overhead + byte payload 0))) [
          | inl h ↦ rw h bad
          | inr h ↦ elim (Option-cases (copy_peer_name (take (byte payload 0) (drop 1 payload)))) [
            | inl k ↦ rw (route_ciphertext, h, k) bad
            | inr (name, k) ↦
                rw (route_ciphertext, h, k)
                  (forward_ciphertext-IsValid id sender name (drop (1 + byte payload 0) payload) v)
          ]
        ]

  handle_encrypted_chat-IsValid :
      {r : Registry} (id : ℕ) (sender frame : List ℕ)
      → IsValid r
      → IsValid (handle_encrypted_chat os r id sender frame)
  unfolding handle_encrypted_chat
  handle_encrypted_chat-IsValid id sender frame v =
      kept_if (byte frame 0 == frame_register_pk) (register_key-IsValid id (drop 1 frame) v) (
        kept_if (byte frame 0 == frame_request_pk) (request_key-IsValid id (drop 1 frame) v)
          (route_ciphertext-IsValid id sender (drop 1 frame) v))

  send_private-IsValid :
      {r : Registry} (id : ℕ) (sender name message : List ℕ)
      → IsValid r
      → IsValid (send_private os r id sender name message)
  unfolding send_private
  send_private-IsValid id sender name message v =
      kept_if (ltb max_message_size (length message))
        (send_text-IsValid v os id (codes "Message too long (maximum: 65536 bytes)\n"))
        (kept_if (ltb (length (private_text sender message)) frame_max_size)
          (send_message_to_client-IsValid name (private_text sender message) id v) v)

  send_broadcast-IsValid :
      {r : Registry} (id : ℕ) (sender message : List ℕ)
      → IsValid r
      → IsValid (send_broadcast os r id sender message)
  unfolding send_broadcast
  send_broadcast-IsValid id sender message v =
      kept_if (ltb max_message_size (length message))
        (send_text-IsValid v os id (codes "Message too long (maximum: 65536 bytes)\n"))
        (kept_if (ltb (length (broadcast_text sender message)) frame_max_size)
          (send_message_to_all_clients-IsValid (broadcast_text sender message) id v) v)

  run_command-IsValid :
      {r : Registry} (id : ℕ) (sender original : List ℕ) (parsed : ParsedCommand)
      (type : ClientCommand)
      → parsed.type ≡ type
      → IsValid r
      → IsValid (run_command os r id sender original parsed).1
  unfolding run_command log_connected_clients send_help
  run_command-IsValid id sender original parsed CommandParser.private_message h v =
      rw h (send_private-IsValid id sender (text_of parsed.username) (text_of parsed.message) v)
  run_command-IsValid id sender original parsed CommandParser.broadcast_message h v =
      rw h (send_broadcast-IsValid id sender (text_of parsed.message) v)
  run_command-IsValid {r} id sender original parsed CommandParser.list_users h v =
      rw h (send_text-IsValid v os id (Registry.list_names (codes "Connected clients:") r.clients))
  run_command-IsValid id sender original parsed CommandParser.help h v =
      rw h (send_text-IsValid v os id Registry.help_message)
  run_command-IsValid id sender original parsed CommandParser.quit h v = rw h v
  run_command-IsValid id sender original parsed CommandParser.invalid h v =
      rw h (invalid-IsValid id original v)
  run_command-IsValid id sender original parsed CommandParser.unknown h v =
      rw h (unknown-IsValid id original v)
  run_command-IsValid id sender original parsed CommandParser.file_transfer h v =
      rw h (unknown-IsValid id original v)

  with_registry-IsServer :
      {s : Server} {r : Registry} → IsServer s → IsValid r → IsServer (with_registry s r)
  with_registry-IsServer v w = record { registry = w; routes = v.routes }

  server_if :
      (b : Bool) (x y : Bool × Server)
      → IsServer x.1
      → IsServer y.1
      → IsServer (if b then x else y).1
  server_if true x y v w = v
  server_if false x y v w = w

  handle_text-IsServer :
      {s : Server} (id : ℕ) (name command : List ℕ)
      → IsServer s
      → IsServer (handle_text os s id name command).1
  unfolding handle_text handle_command
  handle_text-IsServer {s} id name command v =
      let bad : Bool × Server = (
        true,
        with_registry s (send_invalid_command os s.registry id (codes "binary text frame")),
      ) in
      let good : Bool × Server = (
        (run_command os s.registry id name command (parse_command command)).0,
        with_registry s (run_command os s.registry id name command (parse_command command)).1,
      ) in
      server_if (length command == 0 || memchr 0 command) bad good
        (with_registry-IsServer v (invalid-IsValid id (codes "binary text frame") v.registry))
        (with_registry-IsServer v (
          run_command-IsValid id name command (parse_command command) (parse_command command).type
            refl v.registry))

  -- From a server whose two tables are valid, each frame of bytes from a client that has logged in, be it a
  -- text command, a key, a request for one, a ciphertext or a frame of a file, and whatever malloc and the
  -- wake-ups do, leads to one whose two tables are valid.
  pub handle_client_frame-IsServer :
      {s : Server} (id : ℕ) (name frame : List ℕ)
      → IsServer s
      → AreBytes frame
      → IsServer (handle_client_frame os s id name frame).1
  unfolding handle_client_frame
  handle_client_frame-IsServer {s} id name frame v bytes =
      let Pair : Type 0 = Bool × Server in
      let chat : Pair =
        (true, with_registry s (handle_encrypted_chat os s.registry id name frame)) in
      let reply : Pair = (
        true,
        with_registry s
            (send_invalid_command os s.registry id (codes "unexpected public key reply")),
      ) in
      let file : Pair = (true, (route_file_frame os s id name frame).1) in
      let is_chat =
        byte frame 0 == frame_register_pk
        || byte frame 0 == frame_request_pk
        || byte frame 0 == frame_ciphertext in
      let rest : Pair = if byte frame 0 == frame_peer_pk then reply else file in
      server_if (byte frame 0 == frame_text) (handle_text os s id name (drop 1 frame))
        (if is_chat then chat else rest) (handle_text-IsServer id name (drop 1 frame) v)
        (server_if is_chat chat rest
          (with_registry-IsServer v (handle_encrypted_chat-IsValid id name frame v.registry))
          (server_if (byte frame 0 == frame_peer_pk) reply file
            (with_registry-IsServer v
              (invalid-IsValid id (codes "unexpected public key reply") v.registry))
            (route_file_frame-IsServer os v id name frame bytes)))
