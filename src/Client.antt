-- ===== src/Client.antt =====
-- client.c: the client between its login and its end. What the terminal, the random bytes, malloc, the
-- file system and send_frame answer are parameters, and what is printed is recorded as a value. The
-- linked list of pending packages is a list.
pub mod Login
pub mod Pending
pub mod Message
use cipher_chat.Prelude.{
  ℕ, ◌+◌, ◌-◌, ◌%◌, Bool, true, false, not, ◌||◌, ◌&&◌, Option, none, some, List, [], ◌∷◌, ◌++◌,
  ltb, leb, ◌==◌, if◌then◌else◌, length, take, drop,
}
use cipher_chat.Status.{
  Errno, Result, ok, err, done, einval, emsgsize, eproto, enobufs, enomem, econnreset, epipe,
  eacces, enotconn, ebadf, os_error,
}
use cipher_chat.Text.{codes, isspace, iscntrl, memchr, str_eq}
use cipher_chat.Wire.{
  message_max_size, frame_max_size, username_size, chat_public_key_size, chat_nonce_size,
  chat_mac_size, frame_text, frame_request_pk, frame_peer_pk, frame_ciphertext, byte,
}
use cipher_chat.CommandParser.{skip_whitespace, ClientCommand, parse_command}
use cipher_chat.CommandParser
use cipher_chat.Chat.{plain_name, text_of}
use cipher_chat.FileCrypto.{Box}
use cipher_chat.FileSender.{Line, Source, send_frame, send_file}
use cipher_chat.FileReceiver.{
  Downloads, Answers, handle_incoming_file_frame, cleanup_incoming_files,
}

pub data PendingPackageType : Type 0 where
  pending_message pending_file : PendingPackageType

pub record PendingPackage : Type 0 where
  pub type : PendingPackageType
  pub recipient : List ℕ
  pub contents : List ℕ

abbrev pub max_pending_packages : ℕ
max_pending_packages = 128

abbrev pub chat_max_message_size : ℕ
chat_max_message_size = message_max_size

abbrev pub path_max : ℕ
path_max = 4096

-- What the client writes on the terminal.
pub data Shown : Type 0 where
  text : List ℕ → Shown
  private_text : List ℕ → List ℕ → Shown
  invalid_key_response connection_closed too_long : Shown
  key_unavailable : PendingPackageType → List ℕ → Shown
  failed : PendingPackageType → Errno → Shown
  usage : PendingPackageType → Shown
  send_failed undecrypted receive_failed connection_failed : Errno → Shown

-- The static variables of client.c, of the sender and of the receiver, with the connection and what
-- has been printed.
pub record Client : Type 0 where
  pub pending : List PendingPackage
  pub pending_count : ℕ
  pub connected : Bool
  pub client_exit_code : ℕ
  pub line : Line
  pub next_transfer_id : ℕ
  pub downloads : Downloads
  pub shown : List Shown

pub record Keys : Type 0 where
  pub public_key : List ℕ
  pub private_key : List ℕ

-- What one event of the loop meets: randombytes_buf, malloc, strdup, the file at a path, and the answers
-- that the receiver gets.
pub record World : Type 0 where
  pub nonce : List ℕ
  pub malloc : Bool
  pub strdup : Bool
  pub source : List ℕ → Source
  pub answers : Answers

abbrev pub show : Client → Shown → Client
show c what = record c { shown = c.shown ++ what ∷ [] }

-- `os_error` carries the numbers of EPIPE, ECONNRESET, ENOTCONN and EBADF on Linux.
abbrev pub is_connection_error : Errno → Bool
is_connection_error epipe = true
is_connection_error econnreset = true
is_connection_error enotconn = true
is_connection_error ebadf = true
is_connection_error (os_error n) = n == 32 || n == 104 || n == 107 || n == 9
is_connection_error _ = false

-- `client_exit_code = 1; connected = false;` at an error of the connection.
unfoldable pub check_connection : Client → Errno → Client
check_connection c e =
    if is_connection_error e then record c { client_exit_code = 1; connected = false } else c

-- What the memcpy calls put into the payload.
unfoldable pub chat_payload : List ℕ → List ℕ → List ℕ → List ℕ → List ℕ
chat_payload recipient nonce public_key ciphertext =
    length recipient % 256 ∷ (recipient ++ (nonce ++ (public_key ++ ciphertext)))

-- The name, the nonce, the key and the ciphertext of an incoming message.
unfoldable pub open_message : Box → List ℕ → List ℕ → Result (List ℕ × List ℕ)
open_message box private_key frame =
    let sender_len = byte frame 0 in
    let sender = take sender_len (drop 1 frame) in
    let nonce = take chat_nonce_size (drop (1 + sender_len) frame) in
    let sender_public_key =
      take chat_public_key_size (drop (1 + sender_len + chat_nonce_size) frame) in
    let ciphertext = drop (1 + sender_len + chat_nonce_size + chat_public_key_size) frame in
    if not (plain_name sender)
    then err eproto
    else if ltb (chat_mac_size + chat_max_message_size) (length ciphertext)
    then err emsgsize
    else elim (box.unseal ciphertext nonce sender_public_key private_key) [
      | none ↦ err einval
      | some message ↦ ok (sender, message)
    ]

-- The sender and the message that are displayed, or an error.
unfoldable pub receive_private_chat : Box → List ℕ → List ℕ → Result (List ℕ × List ℕ)
unfolding open_message
receive_private_chat box private_key frame =
    let sender_len = byte frame 0 in
    if ltb (length frame) (1 + chat_nonce_size + chat_public_key_size + chat_mac_size)
    then err emsgsize
    else if sender_len == 0
        || leb username_size sender_len
        || ltb (length frame)
            (1 + sender_len + chat_nonce_size + chat_public_key_size + chat_mac_size)
    then err emsgsize
    else open_message box private_key frame

-- The search from `pending_head`, and the list without the package found.
unfoldable pub take_pending :
    List ℕ → List PendingPackage → Option (PendingPackage × List PendingPackage)
take_pending recipient [] = none
take_pending recipient (p ∷ ps) =
    let rest = take_pending recipient ps in
    if str_eq p.recipient recipient
    then some (p, ps)
    else elim rest [ none ↦ none | some found ↦ some (found.0, p ∷ found.1) ]

-- The second test of a FRAME_PEER_PK.
abbrev pub key_refused : List ℕ → Bool
key_refused frame =
    let name_length = byte frame 1 in
    let key_offset = 2 + name_length in
    name_length == 0
    || leb username_size name_length
    || not (length frame == key_offset) && not (length frame == key_offset + chat_public_key_size)
    || memchr 0 (take name_length (drop 2 frame))

module _ (box : Box) (keys : Keys) where
  unfoldable pub send_private_chat :
      Line → List ℕ → List ℕ → List ℕ → Bool → List ℕ → Result (Unit {0}) × Line
  unfolding send_frame chat_payload
  send_private_chat line recipient message nonce malloc recipient_public_key =
      if length recipient == 0 || leb username_size (length recipient)
      then (err einval, line)
      else if ltb chat_max_message_size (length message)
      then (err emsgsize, line)
      else if not malloc
      then (err enomem, line)
      else elim (box.seal message nonce recipient_public_key keys.private_key) [
        | none ↦ (err einval, line)
        | some ciphertext ↦
            send_frame line frame_ciphertext
              (chat_payload recipient nonce keys.public_key ciphertext)
      ]

  -- `result == -1` behind a send.
  unfoldable pub after_package : PendingPackageType → Client → Result (Unit {0}) → Client
  unfolding check_connection
  after_package type c (ok u) = c
  after_package type c (err e) = check_connection (show c (failed type e)) e

  -- The package goes out, with the key that has come.
  unfoldable pub send_package : World → Client → PendingPackage → List ℕ → Client
  unfolding send_private_chat after_package
  send_package world c parcel key = elim parcel.type [
    | pending_file ↦
        let (result, line, next) =
          send_file box c.line c.next_transfer_id (world.source parcel.contents) parcel.recipient
            parcel.contents key keys.public_key keys.private_key in
        after_package pending_file (record c { line = line; next_transfer_id = next }) result
    | pending_message ↦
        let (result, line) =
          send_private_chat c.line parcel.recipient parcel.contents world.nonce world.malloc key in
        after_package pending_message (record c { line = line }) result
  ]

  -- Behind the tests of a FRAME_PEER_PK, with the name and what stands behind it.
  unfoldable pub answer_pending : World → Client → List ℕ → List ℕ → Client
  unfolding take_pending send_package
  answer_pending world c recipient key = elim (take_pending recipient c.pending) [
    | none ↦ c
    | some found ↦
        let removed : Client = record c {
          pending = found.1;
          pending_count = c.pending_count - 1;
        } in
        if length key == 0
        then show removed (key_unavailable (found.0).type recipient)
        else send_package world removed found.0 key
  ]

  unfoldable pub receive_peer_key : World → Client → List ℕ → Client
  unfolding answer_pending
  receive_peer_key world c frame =
      if ltb (length frame) 2
      then show c invalid_key_response
      else if key_refused frame
      then show c invalid_key_response
      else answer_pending world c (take (byte frame 1) (drop 2 frame))
          (drop (2 + byte frame 1) frame)

  -- A frame from the server; receive_frame returns 0 or less where there is no type byte.
  unfoldable pub handle_server_frame : World → Client → List ℕ → Client
  unfolding receive_peer_key receive_private_chat
  handle_server_frame world c frame =
      if byte frame 0 == frame_text
      then show c (text (drop 1 frame))
      else if byte frame 0 == frame_peer_pk
      then receive_peer_key world c frame
      else if byte frame 0 == frame_ciphertext
      then elim (receive_private_chat box keys.private_key (drop 1 frame)) [
        | err e ↦ show c (undecrypted e)
        | ok message ↦ show c (private_text message.0 message.1)
      ]
      else let (result, downloads) =
          handle_incoming_file_frame box world.answers (codes "downloads") keys.private_key
            c.downloads frame in
        let handled : Client = record c { downloads = downloads } in
        elim result [ err e ↦ show handled (receive_failed e) | ok u ↦ handled ]

-- The package at the tail, behind the request for the key.
unfoldable pub add_pending :
    Client → PendingPackage → Result (Unit {0}) × Line → Result (Unit {0}) × Client
add_pending c parcel (err e, line) = (err e, record c { line = line })
add_pending c parcel (ok u, line) = (
  done,
  record c { line = line; pending = c.pending ++ parcel ∷ []; pending_count = c.pending_count + 1 },
)

-- From the test of the length on, the same in `handle_private_message` and `handle_file_command`.
unfoldable pub queue_package :
    World → Client → PendingPackageType → List ℕ → List ℕ → ℕ → Result (Unit {0}) × Client
unfolding add_pending send_frame
queue_package world c type username contents limit =
    if ltb limit (length contents)
    then (err emsgsize, c)
    else if leb max_pending_packages c.pending_count
    then (err enobufs, c)
    else if not world.malloc || not world.strdup
    then (err enomem, c)
    else add_pending c (record { type = type; recipient = username; contents = contents })
        (send_frame c.line frame_request_pk username)

abbrev pub is_private_message : ClientCommand → Bool
is_private_message CommandParser.private_message = true
is_private_message _ = false

abbrev pub is_file_transfer : ClientCommand → Bool
is_file_transfer CommandParser.file_transfer = true
is_file_transfer _ = false

unfoldable pub handle_private_message : World → Client → List ℕ → Result (Unit {0}) × Client
unfolding queue_package
handle_private_message world c line =
    let parsed = parse_command line in
    if not (is_private_message parsed.type)
    then (err einval, show c (usage pending_message))
    else queue_package world c pending_message (text_of parsed.username) (text_of parsed.message)
        chat_max_message_size

unfoldable pub handle_file_command : World → Client → List ℕ → Result (Unit {0}) × Client
unfolding queue_package
handle_file_command world c line =
    let parsed = parse_command line in
    if not (is_file_transfer parsed.type)
    then (err einval, show c (usage pending_file))
    else queue_package world c pending_file (text_of parsed.username) (text_of parsed.filepath)
        path_max

-- `strncmp(line, verb, n) == 0`, with the terminator or a space behind it.
unfoldable pub starts_with_verb : List ℕ → List ℕ → Bool
starts_with_verb verb line =
    str_eq (take (length verb) line) verb
    && (length line == length verb || isspace (byte line (length verb)))

unfoldable pub after_command : PendingPackageType → Result (Unit {0}) × Client → Client
unfolding check_connection
after_command type (ok u, c) = c
after_command type (err e, c) = check_connection (show c (failed type e)) e

-- Behind the send of a text, where `/quit` ends the loop.
unfoldable pub after_text : Client → List ℕ → Result (Unit {0}) × Line → Client
unfolding check_connection
after_text c line (err e, sent) =
    check_connection (show (record c { line = sent }) (send_failed e)) e
after_text c line (ok u, sent) =
    if str_eq line (codes "/quit")
    then record c { line = sent; connected = false }
    else record c { line = sent }

-- `none` is the end of the input.
unfoldable pub handle_input : World → Client → Option (List ℕ) → Client
unfolding handle_private_message handle_file_command starts_with_verb after_command after_text
    send_frame
handle_input world c none = record c { connected = false }
handle_input world c (some line) =
    if length line == 0
    then c
    else if starts_with_verb (codes "/file") line
    then after_command pending_file (handle_file_command world c line)
    else if starts_with_verb (codes "/msg") (skip_whitespace line)
    then after_command pending_message (handle_private_message world c line)
    else if ltb (frame_max_size - 1) (length line)
    then show c too_long
    else after_text c line (send_frame c.line frame_text line)

-- One round of the loop in `main`: what receive_frame returned, if the connection was to be read, with
-- `ok []` for its end, and the line that the terminal gave, if it gave one.
pub record Round : Type 0 where
  pub world : World
  pub received : Option (Result (List ℕ))
  pub input : Option (Option (List ℕ))

module _ (box : Box) (keys : Keys) where
  unfoldable pub receive : World → Client → Result (List ℕ) → Client
  unfolding handle_server_frame
  receive world c (err e) = record (show c (connection_failed e)) {
    client_exit_code = 1;
    connected = false;
  }
  receive world c (ok []) = record (show c connection_closed) { connected = false }
  receive world c (ok (b ∷ bs)) = handle_server_frame box keys world c (b ∷ bs)

  unfoldable pub round : Client → Round → Client
  unfolding receive handle_input
  round c r =
      let after : Client = elim r.received [ none ↦ c | some frame ↦ receive r.world c frame ] in
      elim r.input [
        | none ↦ after
        | some line ↦ if after.connected then handle_input r.world after line else after
      ]

  -- The loop, and the clean-up behind it.
  unfoldable pub run : Client → List Round → Client
  unfolding round
  run c [] = c
  run c (r ∷ rs) = let rest = run (round c r) rs in if c.connected then rest else c

unfoldable pub finish : Client → Client
finish c = record c { downloads = cleanup_incoming_files c.downloads; pending = [] }
