-- ===== src/Client/Pending.antt =====
-- The packages of a client that wait for the key of their recipient.
use cipher_chat.Prelude.{
  ℕ, ◌+◌, ◌-◌, ◌≤◌, ◌<◌, ◌≡◌, refl, subst, ap, Bool, true, false, not, ◌||◌, Option, none, some,
  List, [], ◌∷◌, inl, inr, arith, length, length-append, ltb, leb, ◌==◌, if◌then◌else◌, if_cases,
  Bool-cases, Option-cases, take, drop,
}
use cipher_chat.Status.{Errno, Result, Result-cases, ok, err, einval, emsgsize, enobufs, enomem}
use cipher_chat.Text.{codes, str_eq}
use cipher_chat.Wire.{
  frame_text, frame_peer_pk, frame_ciphertext, frame_request_pk, frame_max_size, byte,
}
use cipher_chat.FileCrypto.{Box}
use cipher_chat.FileSender.{Line, send_frame, send_file}
use cipher_chat.CommandParser.{parse_command, skip_whitespace}
use cipher_chat.Chat.{text_of}
use cipher_chat.FileReceiver.{handle_incoming_file_frame}
use cipher_chat.Client.{
  text, private_text, usage, too_long, receive_failed, key_refused, is_private_message,
  is_file_transfer, chat_max_message_size, path_max, starts_with_verb, invalid_key_response,
  key_unavailable, failed, undecrypted, pending_message, pending_file, receive_private_chat,
  send_private_chat, PendingPackage, PendingPackageType, max_pending_packages, Client, Keys, World,
  Round, Shown, show, check_connection, is_connection_error, take_pending, after_package,
  send_package, answer_pending, receive_peer_key, handle_server_frame, add_pending, queue_package,
  handle_private_message, handle_file_command, after_command, after_text, handle_input, receive,
  round, run,
}

-- The packages are counted, and they are no more than 128.
pub record IsCounted (c : Client) : Type 0 where
  pub counted : c.pending_count ≡ length c.pending
  pub bounded : c.pending_count ≤ max_pending_packages

-- The packages for a recipient, and those for the others, in their order.
unfoldable pub packages_for : List ℕ → List PendingPackage → List PendingPackage
packages_for recipient [] = []
packages_for recipient (p ∷ ps) =
    let rest = packages_for recipient ps in if str_eq p.recipient recipient then p ∷ rest else rest

unfoldable pub packages_beside : List ℕ → List PendingPackage → List PendingPackage
packages_beside recipient [] = []
packages_beside recipient (p ∷ ps) =
    let rest = packages_beside recipient ps in
    if str_eq p.recipient recipient then rest else p ∷ rest

abbrev pub Taken :
    List ℕ → List PendingPackage → Option (PendingPackage × List PendingPackage) → Type 0
Taken recipient ps none = packages_for recipient ps ≡ []
Taken recipient ps (some (p, rest)) =
    (packages_for recipient ps ≡ p ∷ packages_for recipient rest)
    × (packages_beside recipient rest ≡ packages_beside recipient ps)
    × (length ps ≡ 1 + length rest)

found_later :
    (recipient : List ℕ) (p : PendingPackage) (ps : List PendingPackage)
    (o : Option (PendingPackage × List PendingPackage))
    → str_eq p.recipient recipient ≡ false
    → Taken recipient ps o
    → Taken recipient (p ∷ ps) (elim o [ none ↦ none | some found ↦ some (found.0, p ∷ found.1) ])
unfolding packages_for packages_beside
found_later recipient p ps none other t = rw other t
found_later recipient p ps (some (q, rest)) other (first, beside, count) =
    rw other (first, ap (λ qs. p ∷ qs) beside, omega arith)

-- Whatever the name: the search takes the package for it that has waited longest and leaves the others, those
-- for other names too, in their order; or no package waits for the name.
pub take_pending-Taken :
    (recipient : List ℕ) (ps : List PendingPackage) → Taken recipient ps (take_pending recipient ps)
unfolding take_pending packages_for packages_beside
take_pending-Taken recipient [] = refl
take_pending-Taken recipient (p ∷ ps) = elim (Bool-cases (str_eq p.recipient recipient)) [
  | inl same ↦ rw same (rw same refl, rw same refl, omega arith)
  | inr other ↦ rw other (
      found_later recipient p ps (take_pending recipient ps) other
        (take_pending-Taken recipient ps))
]

kept_if : (b : Bool) {c d : Client} → IsCounted c → IsCounted d → IsCounted (if b then c else d)
kept_if true v w = v
kept_if false v w = w

check_connection-IsCounted :
    {c : Client} (e : Errno) → IsCounted c → IsCounted (check_connection c e)
unfolding check_connection
check_connection-IsCounted {c} e v =
    if_cases IsCounted (is_connection_error e)
      (record c { client_exit_code = 1; connected = false }) c
      (λ _. record { counted = v.counted; bounded = v.bounded }) (λ _. v)

show-IsCounted : {c : Client} (what : Shown) → IsCounted c → IsCounted (show c what)
show-IsCounted what v = record { counted = v.counted; bounded = v.bounded }

after_command-IsCounted :
    (type : PendingPackageType) (o : Result (Unit {0}) × Client)
    → IsCounted o.1
    → IsCounted (after_command type o)
unfolding after_command
after_command-IsCounted type (ok u, c) v = v
after_command-IsCounted type (err e, c) v =
    check_connection-IsCounted e (show-IsCounted (failed type e) v)

module _ (box : Box) (keys : Keys) where
  after_package-IsCounted :
      (type : PendingPackageType) {c : Client} (o : Result (Unit {0}))
      → IsCounted c
      → IsCounted (after_package box keys type c o)
  unfolding after_package
  after_package-IsCounted type (ok u) v = v
  after_package-IsCounted type (err e) v =
      check_connection-IsCounted e (show-IsCounted (failed type e) v)

  send_package-IsCounted :
      (world : World) {c : Client} (p : PendingPackage) (key : List ℕ) (type : PendingPackageType)
      → p.type ≡ type
      → IsCounted c
      → IsCounted (send_package box keys world c p key)
  unfolding send_package
  send_package-IsCounted world {c} p key pending_file h v =
      let out =
        send_file box c.line c.next_transfer_id (world.source p.contents) p.recipient p.contents key
          keys.public_key keys.private_key in
      rw h (
        after_package-IsCounted pending_file
          {c = record c { line = out.1; next_transfer_id = out.2 }} out.0
          (record { counted = v.counted; bounded = v.bounded }))
  send_package-IsCounted world {c} p key pending_message h v =
      let out =
        send_private_chat box keys c.line p.recipient p.contents world.nonce world.malloc key in
      rw h (
        after_package-IsCounted pending_message {c = record c { line = out.1 }} out.0
          (record { counted = v.counted; bounded = v.bounded }))

  answer_pending-IsCounted :
      (world : World) {c : Client} (recipient key : List ℕ)
      → IsCounted c
      → IsCounted (answer_pending box keys world c recipient key)
  unfolding answer_pending
  answer_pending-IsCounted world {c} recipient key v =
      elim (Option-cases (take_pending recipient c.pending)) [
        | inl h ↦ rw (answer_pending, h) v
        | inr ((p, rest), h) ↦
            let (first, beside, count) =
              subst (Taken recipient c.pending) h (take_pending-Taken recipient c.pending) in
            let removed : Client = record c {
              pending = rest;
              pending_count = c.pending_count - 1;
            } in
            let w : IsCounted removed = record {
              counted = omega (arith, v.counted);
              bounded = omega (arith, v.bounded);
            } in
            rw (answer_pending, h)
              (if_cases IsCounted (length key == 0)
                (show removed (key_unavailable p.type recipient))
                (send_package box keys world removed p key)
                (λ _. show-IsCounted (key_unavailable p.type recipient) w)
                (λ _. send_package-IsCounted world p key p.type refl w))
      ]

  receive_peer_key-IsCounted :
      (world : World) {c : Client} (frame : List ℕ)
      → IsCounted c
      → IsCounted (receive_peer_key box keys world c frame)
  unfolding receive_peer_key
  receive_peer_key-IsCounted world {c} frame v =
      let told = show-IsCounted invalid_key_response v in
      kept_if (ltb (length frame) 2) told (
        kept_if (key_refused frame) told (
          answer_pending-IsCounted world (take (byte frame 1) (drop 2 frame))
            (drop (2 + byte frame 1) frame) v))

  handle_server_frame-IsCounted :
      (world : World) {c : Client} (frame : List ℕ)
      → IsCounted c
      → IsCounted (handle_server_frame box keys world c frame)
  unfolding handle_server_frame
  handle_server_frame-IsCounted world {c} frame v =
      let incoming =
        handle_incoming_file_frame box world.answers (codes "downloads") keys.private_key
          c.downloads frame in
      kept_if (byte frame 0 == frame_text) (show-IsCounted (text (drop 1 frame)) v) (
        kept_if (byte frame 0 == frame_peer_pk) (receive_peer_key-IsCounted world frame v) (
          if_cases IsCounted (byte frame 0 == frame_ciphertext)
            (elim (receive_private_chat box keys.private_key (drop 1 frame)) as (λ _. Client) [
              | err e ↦ show c (undecrypted e)
              | ok m ↦ show c (private_text m.0 m.1)
            ])
            (elim incoming.0 as (λ _. Client) [
              | err e ↦ show (record c { downloads = incoming.1 }) (receive_failed e)
              | ok u ↦ record c { downloads = incoming.1 }
            ])
            (λ _. elim (Result-cases (receive_private_chat box keys.private_key (drop 1 frame))) [
              | inl (e, h) ↦ rw h (show-IsCounted (undecrypted e) v)
              | inr (m, h) ↦ rw h (show-IsCounted (private_text m.0 m.1) v)
            ])
            (λ _. elim (Result-cases incoming.0) [
              | inl (e, h) ↦ rw h (record { counted = v.counted; bounded = v.bounded })
              | inr (u, h) ↦ rw h (record { counted = v.counted; bounded = v.bounded })
            ])))

  receive-IsCounted :
      (world : World) {c : Client} (received : Result (List ℕ))
      → IsCounted c
      → IsCounted (receive box keys world c received)
  unfolding receive
  receive-IsCounted world (err e) v = record { counted = v.counted; bounded = v.bounded }
  receive-IsCounted world (ok []) v = record { counted = v.counted; bounded = v.bounded }
  receive-IsCounted world (ok (b ∷ bs)) v = handle_server_frame-IsCounted world (b ∷ bs) v

add_pending-IsCounted :
    {c : Client} (p : PendingPackage) (o : Result (Unit {0}) × Line)
    → IsCounted c
    → c.pending_count < max_pending_packages
    → IsCounted (add_pending c p o).1
unfolding add_pending
add_pending-IsCounted p (err e, line) v room = record { counted = v.counted; bounded = v.bounded }
add_pending-IsCounted {c} p (ok u, line) v room = record {
  counted = omega (arith, v.counted, length-append c.pending (p ∷ []));
  bounded = omega arith;
}

queue_package-IsCounted :
    (world : World) {c : Client} (type : PendingPackageType) (username contents : List ℕ)
    (limit : ℕ)
    → IsCounted c
    → IsCounted (queue_package world c type username contents limit).1
unfolding queue_package
queue_package-IsCounted world {c} type username contents limit v =
    let Keeps : Result (Unit {0}) × Client → Type 0 = λ o. IsCounted o.1 in
    let p : PendingPackage = record { type = type; recipient = username; contents = contents } in
    let sends = add_pending c p (send_frame c.line frame_request_pk username) in
    let memory : Result (Unit {0}) × Client =
      if not world.malloc || not world.strdup then (err enomem, c) else sends in
    let room : Result (Unit {0}) × Client =
      if leb max_pending_packages c.pending_count then (err enobufs, c) else memory in
    if_cases Keeps (ltb limit (length contents)) (err emsgsize, c) room (λ _. v)
      (λ _.
        if_cases Keeps (leb max_pending_packages c.pending_count) (err enobufs, c) memory (λ _. v)
          (λ full.
            if_cases Keeps (not world.malloc || not world.strdup) (err enomem, c) sends (λ _. v)
              (λ _.
                add_pending-IsCounted p (send_frame c.line frame_request_pk username) v
                  (ground arith))))

handle_private_message-IsCounted :
    (world : World) {c : Client} (line : List ℕ)
    → IsCounted c
    → IsCounted (handle_private_message world c line).1
unfolding handle_private_message
handle_private_message-IsCounted world {c} line v =
    let parsed = parse_command line in
    if_cases (λ (o : Result (Unit {0}) × Client). IsCounted o.1)
      (not (is_private_message parsed.type)) (err einval, show c (usage pending_message))
      (queue_package world c pending_message (text_of parsed.username) (text_of parsed.message)
        chat_max_message_size)
      (λ _. show-IsCounted (usage pending_message) v)
      (λ _.
        queue_package-IsCounted world pending_message (text_of parsed.username)
          (text_of parsed.message) chat_max_message_size v)

handle_file_command-IsCounted :
    (world : World) {c : Client} (line : List ℕ)
    → IsCounted c
    → IsCounted (handle_file_command world c line).1
unfolding handle_file_command
handle_file_command-IsCounted world {c} line v =
    let parsed = parse_command line in
    if_cases (λ (o : Result (Unit {0}) × Client). IsCounted o.1)
      (not (is_file_transfer parsed.type)) (err einval, show c (usage pending_file))
      (queue_package world c pending_file (text_of parsed.username) (text_of parsed.filepath)
        path_max)
      (λ _. show-IsCounted (usage pending_file) v)
      (λ _.
        queue_package-IsCounted world pending_file (text_of parsed.username)
          (text_of parsed.filepath) path_max v)

after_text-IsCounted :
    {c : Client} (line : List ℕ) (o : Result (Unit {0}) × Line)
    → IsCounted c
    → IsCounted (after_text c line o)
unfolding after_text
after_text-IsCounted line (err e, sent) v =
    check_connection-IsCounted e (record { counted = v.counted; bounded = v.bounded })
after_text-IsCounted line (ok u, sent) v =
    kept_if (str_eq line (codes "/quit")) (record { counted = v.counted; bounded = v.bounded })
      (record { counted = v.counted; bounded = v.bounded })

handle_input-IsCounted :
    (world : World) {c : Client} (input : Option (List ℕ))
    → IsCounted c
    → IsCounted (handle_input world c input)
unfolding handle_input
handle_input-IsCounted world none v = record { counted = v.counted; bounded = v.bounded }
handle_input-IsCounted world {c} (some line) v = kept_if (length line == 0) v (
    kept_if (starts_with_verb (codes "/file") line)
      (after_command-IsCounted pending_file (handle_file_command world c line)
        (handle_file_command-IsCounted world line v))
      (kept_if (starts_with_verb (codes "/msg") (skip_whitespace line))
        (after_command-IsCounted pending_message (handle_private_message world c line)
          (handle_private_message-IsCounted world line v))
        (kept_if (ltb (frame_max_size - 1) (length line)) (show-IsCounted too_long v)
          (after_text-IsCounted line (send_frame c.line frame_text line) v))))

module _ (box : Box) (keys : Keys) where
  after_receive-IsCounted :
      (world : World) {c : Client} (input : Option (Option (List ℕ)))
      → IsCounted c
      → IsCounted (elim input as (λ _. Client) [
        | none ↦ c
        | some line ↦ if c.connected then handle_input world c line else c
      ])
  after_receive-IsCounted world none v = v
  after_receive-IsCounted world {c} (some line) v =
      kept_if c.connected (handle_input-IsCounted world line v) v

  round-IsCounted : {c : Client} (r : Round) → IsCounted c → IsCounted (round box keys c r)
  unfolding round
  round-IsCounted r v = elim (Option-cases r.received) [
    | inl h ↦ rw h (after_receive-IsCounted r.world r.input v)
    | inr (frame, h) ↦
        rw h (after_receive-IsCounted r.world r.input (receive-IsCounted box keys r.world frame v))
  ]

  -- From a client whose pending packages are counted and are at most 128, any rounds of the loop, whatever
  -- the server and the terminal send and the system answers, lead to one whose pending packages are counted
  -- and are at most 128.
  pub run-IsCounted :
      (rounds : List Round) {c : Client} → IsCounted c → IsCounted (run box keys c rounds)
  unfolding run
  run-IsCounted [] v = v
  run-IsCounted (r ∷ rs) {c} v = kept_if c.connected (run-IsCounted rs (round-IsCounted r v)) v
