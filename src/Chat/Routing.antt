-- ===== src/Chat/Routing.antt =====
-- What a client can make the server pass on to another one as an encrypted message.
use cipher_chat.Prelude.{ℕ, ◌+◌, ◌-◌, ◌≤◌, ◌<◌, ◌≡◌, true, List, ◌∷◌, ◌++◌, length, take, drop}
use cipher_chat.Status.{ok}
use cipher_chat.Wire.{
  frame_max_size, username_size, chat_public_key_size, chat_nonce_size, chat_mac_size,
  frame_ciphertext, byte,
}
use cipher_chat.Registry
use cipher_chat.Registry.{Os, Registry}
use cipher_chat.Chat.{plain_name, max_message_size, forwarded, or_user_not_found}

-- A payload that may be passed on: a valid name behind its length, and then a nonce, the key that the sender
-- has registered, and a ciphertext; and the sender's login name fits in place of the other name.
pub record IsChat (r : Registry) (client_id : ℕ) (sender_username payload : List ℕ) : Type 0 where
  pub recipient : List ℕ
  pub encrypted : List ℕ
  pub parts : payload ≡ byte payload 0 ∷ (recipient ++ encrypted)
  pub named : length recipient ≡ byte payload 0
  pub given : 1 ≤ length recipient
  pub short : length recipient < username_size
  pub plain : plain_name recipient ≡ true
  pub whole : chat_nonce_size + chat_public_key_size + chat_mac_size ≤ length encrypted
  pub fits :
      length encrypted ≤ chat_nonce_size + chat_public_key_size + chat_mac_size + max_message_size
  pub registered :
      Registry.get_client_public_key r client_id
      ≡ ok (take chat_public_key_size (drop chat_nonce_size encrypted))
  pub sender_given : 1 ≤ length sender_username
  pub sender_short : length sender_username < username_size
  pub room : length (forwarded sender_username encrypted) ≤ frame_max_size - 1

module _ (os : Os) (r : Registry) (client_id : ℕ) (sender_username : List ℕ) where
  -- The sender is told that the frame is refused, and nothing else happens.
  abbrev pub IsRefused : Registry → Type 0
  IsRefused after =
      (reason : List ℕ) × (after ≡ Registry.send_invalid_command os r client_id reason)

  -- One frame is sent, to the client of that name, with the login name of the sender in place of the name
  -- and all that stands behind it; if that fails, the sender is told.
  abbrev pub IsPassedOn : List ℕ → List ℕ → Registry → Type 0
  IsPassedOn recipient encrypted after =
      after
      ≡ or_user_not_found os client_id recipient (
          Registry.send_frame os r (Registry.find_client_id r recipient) frame_ciphertext
            (forwarded sender_username encrypted))

  abbrev Passes : List ℕ → Type 0
  Passes encrypted =
      (Registry.get_client_public_key r client_id
        ≡ ok (take chat_public_key_size (drop chat_nonce_size encrypted)))
      × (length encrypted - chat_nonce_size - chat_public_key_size - chat_mac_size
          ≤ max_message_size)
      × (1 ≤ length sender_username)
      × (length sender_username < username_size)
      × (length (forwarded sender_username encrypted) ≤ frame_max_size - 1)
