-- ===== src/Client/Message.antt =====
-- A private message, from the client that sends it through the server to the one that displays it.
use cipher_chat.Prelude.{
  ℕ, ◌+◌, ◌-◌, ◌≤◌, ◌<◌, ◌≡◌, refl, sym, ap, ◌∙◌, true, false, ◌||◌, List, [], ◌∷◌, ◌++◌, some,
  arith, length, take, drop, length-append, take_exact, drop_exact, drop-drop, ltb, leb, ◌==◌,
}
use cipher_chat.Status.{ok, done}
use cipher_chat.Wire.{
  message_max_size, frame_max_size, username_size, chat_public_key_size, chat_nonce_size,
  chat_mac_size, chat_overhead, frame_ciphertext, byte,
}
use cipher_chat.Registry
use cipher_chat.Registry.{Os, Registry}
use cipher_chat.Registry.Invariant.{str_eq_self}
use cipher_chat.Chat.{
  plain_name, copy_peer_name, forwarded, forward_ciphertext, or_user_not_found, route_ciphertext,
}
use cipher_chat.FileCrypto.{Box}
use cipher_chat.FileSender.{Line, send_frame}
use cipher_chat.Client.{Keys, chat_payload, send_private_chat, open_message, receive_private_chat}

-- A name as both sides test it.
pub record IsName (name : List ℕ) : Type 0 where
  pub given : 1 ≤ length name
  pub short : length name < username_size
  pub plain : plain_name name ≡ true

pub copy_peer_name-IsName : (name : List ℕ) → IsName name → copy_peer_name name ≡ some name
unfolding copy_peer_name
copy_peer_name-IsName name n = ground (arith, n.given, n.short, n.plain)

-- A payload of a name and what stands behind it.
module _ (name behind : List ℕ) (n : IsName name) where
  payload_length : byte (forwarded name behind) 0 ≡ length name
  payload_length = omega (arith, n.short)

  payload_name : take (byte (forwarded name behind) 0) (drop 1 (forwarded name behind)) ≡ name
  payload_name = take_exact (byte (forwarded name behind) 0) name behind (sym payload_length)

  payload_rest : drop (1 + byte (forwarded name behind) 0) (forwarded name behind) ≡ behind
  payload_rest =
      sym (drop-drop (byte (forwarded name behind) 0) 1 (forwarded name behind))
      ∙ drop_exact (byte (forwarded name behind) 0) name behind (sym payload_length)

module _ (nonce pk ciphertext : List ℕ) (ln : length nonce ≡ chat_nonce_size)
    (lk : length pk ≡ chat_public_key_size) where
  abbrev pub encrypted : List ℕ
  encrypted = nonce ++ (pk ++ ciphertext)

  length-encrypted : length encrypted ≡ 56 + length ciphertext
  length-encrypted =
      omega (arith, length-append nonce (pk ++ ciphertext), length-append pk ciphertext)

  behind_nonce : drop chat_nonce_size encrypted ≡ pk ++ ciphertext
  behind_nonce = drop_exact chat_nonce_size nonce (pk ++ ciphertext) ln

  claimed_key : take chat_public_key_size (drop chat_nonce_size encrypted) ≡ pk
  claimed_key =
      ap (take chat_public_key_size) behind_nonce ∙ take_exact chat_public_key_size pk ciphertext lk

  -- The parts of the payload that the recipient reads.
  module _ (sender : List ℕ) (n : IsName sender) where
    abbrev received : List ℕ
    received = forwarded sender encrypted

    nonce_at : take chat_nonce_size (drop (1 + byte received 0) received) ≡ nonce
    nonce_at =
        ap (take chat_nonce_size) (payload_rest sender encrypted n)
        ∙ take_exact chat_nonce_size nonce (pk ++ ciphertext) ln

    behind_nonce_at : drop (1 + byte received 0 + chat_nonce_size) received ≡ pk ++ ciphertext
    behind_nonce_at =
        sym (drop-drop chat_nonce_size (1 + byte received 0) received)
        ∙ (ap (drop chat_nonce_size) (payload_rest sender encrypted n) ∙ behind_nonce)

    key_at : take chat_public_key_size (drop (1 + byte received 0 + chat_nonce_size) received) ≡ pk
    key_at =
        ap (take chat_public_key_size) behind_nonce_at
        ∙ take_exact chat_public_key_size pk ciphertext lk

    ciphertext_at :
        drop (1 + byte received 0 + chat_nonce_size + chat_public_key_size) received ≡ ciphertext
    ciphertext_at =
        sym (drop-drop chat_public_key_size (1 + byte received 0 + chat_nonce_size) received)
        ∙ (ap (drop chat_public_key_size) behind_nonce_at
            ∙ drop_exact chat_public_key_size pk ciphertext lk)

    opens :
        (box : Box) (sk' message : List ℕ)
        → length ciphertext ≤ chat_mac_size + message_max_size
        → box.unseal ciphertext nonce pk sk' ≡ some message
        → open_message box sk' received ≡ ok (sender, message)
    unfolding open_message
    opens box sk' message small h =
        let fits : ltb (chat_mac_size + message_max_size) (length ciphertext) ≡ false =
          ground arith in
        rw (payload_name sender encrypted n, n.plain, nonce_at, key_at, ciphertext_at, fits, h)
          (ap (λ name. ok (name, message)) (payload_name sender encrypted n))

    receives :
        (box : Box) (sk' message : List ℕ)
        → chat_mac_size ≤ length ciphertext
        → length ciphertext ≤ chat_mac_size + message_max_size
        → box.unseal ciphertext nonce pk sk' ≡ some message
        → receive_private_chat box sk' received ≡ ok (sender, message)
    unfolding receive_private_chat
    receives box sk' message large small h = ground (
      arith,
      opens box sk' message small h,
      payload_length sender encrypted n,
      n.given,
      n.short,
      length-append sender encrypted,
      length-encrypted,
    )

    forwards :
        (os : Os) (r : Registry) (id : ℕ) (recipient : List ℕ)
        → length ciphertext ≤ chat_mac_size + message_max_size
        → Registry.get_client_public_key r id ≡ ok pk
        → forward_ciphertext os r id sender recipient encrypted
          ≡ or_user_not_found os id recipient (
              Registry.send_frame os r
                (Registry.find_client_id r recipient)
                frame_ciphertext
                received)
    unfolding forward_ciphertext
    forwards os r id recipient small registered =
        let fits : ltb message_max_size
              (length encrypted - chat_nonce_size - chat_public_key_size - chat_mac_size)
            ≡ false =
          ground (arith, length-encrypted) in
        let named : (length sender == 0
              || leb username_size (length sender)
              || ltb (frame_max_size - 1) (length received))
            ≡ false =
          ground (arith, n.given, n.short, length-append sender encrypted, length-encrypted) in
        rw (fits, registered, claimed_key, str_eq_self pk, named) refl

    routes :
        (os : Os) (r : Registry) (id : ℕ) (recipient : List ℕ)
        → IsName recipient
        → chat_mac_size ≤ length ciphertext
        → length ciphertext ≤ chat_mac_size + message_max_size
        → Registry.get_client_public_key r id ≡ ok pk
        → route_ciphertext os r id sender (forwarded recipient encrypted)
          ≡ or_user_not_found os id recipient (
              Registry.send_frame os r
                (Registry.find_client_id r recipient)
                frame_ciphertext
                received)
    unfolding route_ciphertext
    routes os r id recipient m large small registered =
        let payload = forwarded recipient encrypted in
        let long : (ltb (length payload) chat_overhead
              || ltb (length payload) (chat_overhead + byte payload 0))
            ≡ false =
          ground (
            arith,
            payload_length recipient encrypted m,
            length-append recipient encrypted,
            length-encrypted,
          ) in
        rw (long, payload_name recipient encrypted m, copy_peer_name-IsName recipient m)
          (ap (forward_ciphertext os r id sender recipient) (payload_rest recipient encrypted m)
            ∙ forwards os r id recipient small registered)

-- For a message of at most 65536 bytes between clients with names of 1 to 31 bytes without spaces and control
-- characters, when the key of the sender is registered, crypto_box seals the message and opens what it has
-- sealed, and malloc and send_frame succeed: the sender sends one FRAME_CIPHERTEXT; on its payload the
-- server passes to the recipient a FRAME_CIPHERTEXT, or tells the sender that there is no such user; and
-- the recipient displays from the payload of that frame the login name of the sender and the message.
pub private_message-arrives :
    (os : Os) (box : Box) (keys : Keys) (line : Line) (r : Registry) (id : ℕ)
    (sender recipient message nonce pk' sk' ciphertext : List ℕ)
    → IsName sender
    → IsName recipient
    → length message ≤ message_max_size
    → length nonce ≡ chat_nonce_size
    → length keys.public_key ≡ chat_public_key_size
    → box.IsKeyPair keys.public_key keys.private_key
    → box.IsKeyPair pk' sk'
    → box.seal message nonce pk' keys.private_key ≡ some ciphertext
    → line.answer (length line.frames) ≡ done
    → Registry.get_client_public_key r id ≡ ok keys.public_key
    → (sent passed : List ℕ) × (send_private_chat box keys line recipient message nonce true pk'
        ≡ (done, record line { frames = line.frames ++ (frame_ciphertext, sent) ∷ [] }))
      × (route_ciphertext os r id sender sent
          ≡ or_user_not_found os id recipient (
              Registry.send_frame os r
                (Registry.find_client_id r recipient)
                frame_ciphertext
                passed))
      × (receive_private_chat box sk' passed ≡ ok (sender, message))
unfolding send_private_chat send_frame chat_payload
private_message-arrives os box keys line r id sender recipient message nonce pk' sk' ciphertext n m
      short ln lk pair pair' sealed works registered =
    let size : length ciphertext ≡ chat_mac_size + length message =
      box.length_seal message nonce pk' keys.private_key ciphertext sealed in
    let enc = nonce ++ (keys.public_key ++ ciphertext) in
    let named : (length recipient == 0 || leb username_size (length recipient)) ≡ false =
      ground (arith, m.given, m.short) in
    let fits : ltb message_max_size (length message) ≡ false = ground arith in
    (
      forwarded recipient enc,
      forwarded sender enc,
      rw (named, fits, sealed, works) refl,
      routes nonce keys.public_key ciphertext ln lk sender n os r id recipient m (omega arith)
          (omega arith) registered,
      receives nonce keys.public_key ciphertext ln lk sender n box sk' message (omega arith)
          (omega arith)
          (box.unseal_seal message nonce keys.public_key keys.private_key pk' sk' ciphertext pair
            pair' sealed),
    )
