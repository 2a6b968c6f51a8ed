-- ===== src/Tests/Clients.antt =====
-- Witnesses on the client.
use cipher_chat.Prelude.{
  if◌then◌else◌, ℕ, ◌+◌, ◌≤◌, ◌≡◌, refl, true, false, none, some, List, [], ◌∷◌, ◌++◌, arith,
  length, drop, replicate,
}
use cipher_chat.Prelude.Table.{count, find_index}
use cipher_chat.Status.{einval, err, ok, done}
use cipher_chat.Text.{codes, fits, isspace, iscntrl, decimal, digits}
use cipher_chat.Wire.{chat_mac_size, frame_file_chunk, frame_ciphertext}
use cipher_chat.FileProtocol.{valid_peer_name, valid_filename, every, peer_byte, filename_byte}
use cipher_chat.Registry
use cipher_chat.Registry.{Os, Registry, written, start, admit}
use cipher_chat.Chat.{plain_name, route_ciphertext, or_user_not_found}
use cipher_chat.FileCrypto.{Box, encrypt_file, decrypt_file, plaintext_of, file_crypto_overhead}
use cipher_chat.FileCrypto.RoundTrip.{decrypt-encrypt_file}
use cipher_chat.FileSender.{Line, send_encrypted}
use cipher_chat.FileSender.Frames.{Frames, Transfer, send_encrypted-Transfer}
use cipher_chat.FileReceiver.{
  Answers, no_downloads, has_transfer, is_idle, find_incoming_file, handle_incoming_file_frame,
  ensure_download_directory, build_path, stage, temp_template,
}
use cipher_chat.FileReceiver.Invariant.{no_downloads-IsValid}
use cipher_chat.FileReceiver.Invariant as ReceiverInvariant
use cipher_chat.FileReceiver.Preserve.{handle_incoming_file_frame-IsValid}
use cipher_chat.FileReceiver.Transfer.{Works, receive_all, receive_all-Transfer}
use cipher_chat.Client.{
  Client, Keys, World, Round, PendingPackage, pending_message, take_pending, send_private_chat,
  receive_private_chat, run,
}
use cipher_chat.Registry.{username_is_valid}
use cipher_chat.Client.Login.{get_username, get_username-username_is_valid}
use cipher_chat.Client.Pending.{Taken, take_pending-Taken, IsCounted, run-IsCounted}
use cipher_chat.Client.Message.{IsName, private_message-arrives}

-- A box that puts 16 bytes before the message.
abbrev sealing : List ℕ → List ℕ
sealing m = replicate 16 0 ++ m

seal_length : (m c : List ℕ) → some (sealing m) ≡ some c → length c ≡ chat_mac_size + length m
seal_length m c e = ground arith

unseal_sealed : (m c : List ℕ) → some (sealing m) ≡ some c → some (drop 16 c) ≡ some m
unseal_sealed m c e = ground arith

abbrev box : Box
box = record {
  IsKeyPair = λ pk sk. Unit {0};
  seal = λ m n pk sk. some (sealing m);
  unseal = λ c n pk sk. some (drop 16 c);
  length_seal = λ m n pk sk c e. seal_length m c e;
  unseal_seal = λ m n pk sk pk' sk' c p p' e. unseal_sealed m c e;
}

abbrev key : List ℕ
key = replicate 32 1

abbrev nonce : List ℕ
nonce = replicate 24 2

abbrev file_name : List ℕ
file_name = codes "a.txt"

abbrev hello : List ℕ
hello = codes "hello"

-- The file in its encrypted form.
abbrev encrypted : List ℕ
encrypted =
    codes "CCFILE01"
    ++ (key ++ (nonce ++ sealing (codes "CCFILE01" ++ (0 ∷ 5 ∷ (file_name ++ hello)))))

encrypts : encrypt_file box file_name hello nonce key key [] ≡ ok encrypted
unfolding encrypt_file plaintext_of
encrypts = refl

decrypt-encrypt_file_example :
    (length encrypted ≡ file_crypto_overhead + (length file_name + length hello))
    × (decrypt_file box file_name encrypted [] ≡ ok hello)
decrypt-encrypt_file_example =
    decrypt-encrypt_file box file_name hello nonce key [] key [] (omega arith) refl refl tt tt
      encrypts

-- A connection on which every send succeeds.
abbrev line : Line
line = record { frames = []; answer = λ n. done }

alice_valid : valid_peer_name (codes "alice") ≡ true
unfolding valid_peer_name every peer_byte isspace iscntrl
alice_valid = refl

file_name_valid : valid_filename file_name ≡ true
unfolding valid_filename every filename_byte iscntrl
file_name_valid = refl

send_encrypted-Transfer_example :
    (frames : Frames) × (send_encrypted line 7 (codes "alice") file_name encrypted
      ≡ (done, record line { frames = line.frames ++ frames }))
    × Transfer 7 (codes "alice") file_name encrypted frames
send_encrypted-Transfer_example =
    send_encrypted-Transfer 7 (omega arith) line (codes "alice") file_name encrypted (λ n. refl)
      alice_valid file_name_valid (omega arith)

-- The frames of the transfer.
sent :
    (frames : Frames) × (send_encrypted line 7 (codes "alice") file_name encrypted
      ≡ (done, record line { frames = line.frames ++ frames }))
    × Transfer 7 (codes "alice") file_name encrypted frames
sent =
    send_encrypted-Transfer 7 (omega arith) line (codes "alice") file_name encrypted (λ n. refl)
      alice_valid file_name_valid (omega arith)

-- Every call behind a frame succeeds.
abbrev answers : Answers
answers = record {
  mkdir = done;
  stat_directory = ok true;
  lstat = ok none;
  getpid = 9;
  mkstemp = ok (codes "downloads/tmp");
  fdopen = done;
  fwrite = done;
  malloc = done;
  read_back = done;
  rewrite = done;
  fclose = done;
  link = done;
}

abbrev downloads : List ℕ
downloads = codes "downloads"

works : Works answers downloads file_name 7 (codes "downloads/a.txt") (codes "downloads/tmp")
unfolding ensure_download_directory build_path stage temp_template fits decimal digits
works = record {
  directory_there = refl;
  path_fits = refl;
  staging_open = refl;
  writes = refl;
  allocates = refl;
  reads_back = refl;
  rewrites = refl;
  closes = refl;
  links = refl;
}

none_received : count (has_transfer 7) no_downloads.incoming_files ≡ 0
unfolding no_downloads has_transfer count
none_received = refl

room : 1 ≤ count is_idle no_downloads.incoming_files
unfolding no_downloads is_idle count
room = omega arith

receive_all-Transfer_example :
    let after = receive_all answers downloads [] box no_downloads sent.0 in
    (after.saved ≡ no_downloads.saved ++ (codes "downloads/a.txt", hello) ∷ [])
    × (find_incoming_file 7 after.incoming_files ≡ none)
receive_all-Transfer_example =
    receive_all-Transfer answers downloads box (codes "alice") file_name (codes "downloads/a.txt")
      (codes "downloads/tmp") hello nonce key [] key [] no_downloads-IsValid none_received room
      works (omega arith) (omega arith) refl refl tt tt encrypts sent.2

handle_incoming_file_frame-IsValid_example :
    ReceiverInvariant.IsValid
      (handle_incoming_file_frame box answers downloads [] no_downloads
        (frame_file_chunk ∷ 0 ∷ 0 ∷ 0 ∷ 7 ∷ 1 ∷ [])).1
handle_incoming_file_frame-IsValid_example =
    handle_incoming_file_frame-IsValid box no_downloads-IsValid answers downloads []
      (frame_file_chunk ∷ 0 ∷ 0 ∷ 0 ∷ 7 ∷ 1 ∷ [])
      (omega arith, (omega arith, (omega arith, (omega arith, (omega arith, (omega arith, tt))))))

abbrev to : List ℕ → PendingPackage
to recipient = record { type = pending_message; recipient = recipient; contents = hello }

-- Two packages wait for bob, one for carol.
abbrev waiting : List PendingPackage
waiting = to (codes "carol") ∷ to (codes "bob") ∷ to (codes "bob") ∷ []

take_pending-Taken_example : Taken (codes "bob") waiting (take_pending (codes "bob") waiting)
take_pending-Taken_example = take_pending-Taken (codes "bob") waiting

abbrev client : Client
client = record {
  pending = waiting;
  pending_count = 3;
  connected = true;
  client_exit_code = 0;
  line = line;
  next_transfer_id = 1;
  downloads = no_downloads;
  shown = [];
}

abbrev world : World
world = record {
  nonce = nonce;
  malloc = true;
  strdup = true;
  source = λ path. record {
    fopen = done;
    fstat = ok (record { regular = true; size = 5 });
    contents = hello;
    fclose = done;
    malloc = true;
    nonce = nonce;
  };
  answers = answers;
}

abbrev keys : Keys
keys = record { public_key = key; private_key = [] }

-- The server answers with no key for bob, and the terminal gives a command.
abbrev rounds : List Round
rounds =
    record {
      world = world;
      received = some (ok (6 ∷ 3 ∷ codes "bob"));
      input = some (some (codes "/msg dan hi"));
    }
    ∷ []

run-IsCounted_example : IsCounted (run box keys client rounds)
run-IsCounted_example =
    run-IsCounted box keys rounds {c = client} (record { counted = refl; bounded = omega arith })

abbrev os : Os
os = record { malloc = λ n. true; eventfd = λ n. ok 5; eventfd_write = λ n. written }

-- Alice has logged in and registered her key.
abbrev registered : Registry
registered =
    (Registry.register_client_public_key
      (Registry.activate_client
        (Registry.add_client os start
          (record { socket_fd = some 4; ssl = some 1; tls_io_failed = false }) (codes "alice")).1
        0).1
      1 key).1

key_there : Registry.get_client_public_key registered 1 ≡ ok key
unfolding start find_index Registry.get_client_public_key Registry.register_client_public_key
    Registry.activate_client Registry.add_client iscntrl isspace
key_there = refl

alice-IsName : IsName (codes "alice")
unfolding plain_name isspace iscntrl
alice-IsName = record { given = omega arith; short = omega arith; plain = refl }

private_message-arrives_example :
    (chat passed : List ℕ) × (send_private_chat box keys line (codes "alice") hello nonce true key
      ≡ (done, record line { frames = line.frames ++ (frame_ciphertext, chat) ∷ [] }))
    × (route_ciphertext os registered 1 (codes "alice") chat
        ≡ or_user_not_found os 1 (codes "alice") (
            Registry.send_frame os registered
              (Registry.find_client_id registered (codes "alice"))
              frame_ciphertext
              passed))
    × (receive_private_chat box [] passed ≡ ok (codes "alice", hello))
private_message-arrives_example =
    private_message-arrives os box keys line registered 1 (codes "alice") (codes "alice") hello
      nonce key [] (sealing hello) alice-IsName alice-IsName (omega arith) refl refl tt tt refl refl
      key_there

get_username-username_is_valid_example :
    get_username einval (codes "alice" ++ 10 ∷ [])
    ≡ (if username_is_valid (codes "alice") then ok (codes "alice") else err einval)
get_username-username_is_valid_example = get_username-username_is_valid einval (codes "alice") [] (
  ground arith,
  ground arith,
  (
    ground arith,
    ground arith,
    (ground arith, ground arith, (ground arith, ground arith, (ground arith, ground arith, tt))),
  ),
)
