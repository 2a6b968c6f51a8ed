-- ===== src/FileReceiver/Preserve.antt =====
-- Every frame that a client handles keeps what `Invariant` says of its table of incoming files.
use cipher_chat.Prelude.{
  ℕ, ◌⊎◌, ◌+◌, ◌-◌, ◌%◌, ◌≤◌, ◌<◌, ◌≡◌, refl, ap, true, false, not, ◌||◌, List, [], ◌∷◌, ◌++◌, none,
  some, inl, inr, arith, length, length-append, ltb, ◌==◌, Bool-cases, set-set, get_or-set,
  if_cases,
}
use cipher_chat.Prelude.Table.{bit-le, count, find_index-cases}
use cipher_chat.Status.{Result, Result-cases, ok, err, done, einval, eio, efbig}
use cipher_chat.Wire.{
  frame_file_begin, frame_file_chunk, frame_file_end, frame_file_error, u64_mod, byte,
}
use cipher_chat.Wire.RoundTrip.{AreBytes}
use cipher_chat.FileProtocol.Reencode.{decode_begin-range}
use cipher_chat.FileProtocol.{FileBeginFrame, decode_begin, decode_chunk, decode_control}
use cipher_chat.FileCrypto.{Box, file_crypto_overhead, file_plaintext_max_size, max_incoming_files}
use cipher_chat.FileReceiver.{
  IncomingFile, zero_file, Downloads, Answers, file_at, put, has_transfer, find_incoming_file,
  is_idle, create_incoming_file, discard_incoming_file, build_path, stage, open_staging,
  begin_created, size_refused, begin_decoded, ensure_download_directory, receive_file_begin, staged,
  receive_at, receive_file_chunk, decrypt_received_file, save, end_at, receive_file_end,
  receive_file_error, handle_incoming_file_frame,
}
use cipher_chat.FileReceiver.Invariant.{
  IsValid, Files-at, put-IsValid, discard_incoming_file-IsValid, saved-IsValid,
}

-- The entry that `create_incoming_file` leaves.
abbrev pub claimed : ℕ → IncomingFile
claimed x = record zero_file { active = true; transfer_id = x }

abbrev pub opened_file : IncomingFile → FileBeginFrame → List ℕ → List ℕ → IncomingFile
opened_file f begin path temp = record f {
  sender = begin.peer;
  filename = begin.filename;
  expected_size = begin.file_size;
  final_path = path;
  temp_path = temp;
  file = some [];
}

abbrev pub grown : IncomingFile → List ℕ → IncomingFile
grown f contents = record f {
  file = some (staged f ++ contents);
  received_size = (f.received_size + length contents) % u64_mod;
}

pub put-put : (d : Downloads) (i : ℕ) (f g : IncomingFile) → put (put d i f) i g ≡ put d i g
put-put d i f g = ap (λ fs. record d { incoming_files = fs }) (set-set d.incoming_files i f g)

-- A search for a transfer: the slot that has it, or that none has.
pub search :
    {d : Downloads} (x : ℕ)
    → IsValid d
    → ((find_incoming_file x d.incoming_files ≡ none)
        × (count (has_transfer x) d.incoming_files ≡ 0))
      ⊎ ((i : ℕ) × (find_incoming_file x d.incoming_files ≡ some i)
          × (i < max_incoming_files)
          × (has_transfer x (file_at d.incoming_files i) ≡ true))
unfolding find_incoming_file
search {d} x v = elim (find_index-cases (has_transfer x) d.incoming_files zero_file) [
  | inl (none_found, c) ↦ inl (none_found, c)
  | inr (i, found, inside, hit) ↦ inr (i, found, omega (arith, v.slots), hit)
]

size_refused-fits :
    (begin : FileBeginFrame)
    → size_refused begin ≡ false
    → (file_crypto_overhead + length begin.filename ≤ begin.file_size)
      × (begin.file_size ≤ file_crypto_overhead + length begin.filename + file_plaintext_max_size)
unfolding size_refused
size_refused-fits begin h = ground arith

module _ {d : Downloads} (v : IsValid d) where
  opened-IsValid :
      (i : ℕ) (begin : FileBeginFrame) (path temp : List ℕ)
      → i < max_incoming_files
      → begin.file_size < u64_mod
      → size_refused begin ≡ false
      → (file_at d.incoming_files i).active ≡ false
      → count (has_transfer begin.transfer_id) d.incoming_files ≡ 0
      → IsValid (put d i (opened_file (claimed begin.transfer_id) begin path temp))
  unfolding has_transfer
  opened-IsValid i begin path temp inside small fit idle fresh =
      let (low, high) = size_refused-fits begin fit in
      put-IsValid i (opened_file (claimed begin.transfer_id) begin path temp) v inside
        (λ a. (omega arith, refl, low, high, small)) (λ k. ground (arith, v.ids k))

  open_staging-IsValid :
      (answers : Answers) (directory : List ℕ) (begin : FileBeginFrame) (i : ℕ)
      → i < max_incoming_files
      → begin.file_size < u64_mod
      → size_refused begin ≡ false
      → (file_at d.incoming_files i).active ≡ false
      → count (has_transfer begin.transfer_id) d.incoming_files ≡ 0
      → IsValid (open_staging answers directory begin (put d i (claimed begin.transfer_id)) i).1
  unfolding open_staging
  open_staging-IsValid answers directory begin i inside small fit idle fresh =
      let gone : IsValid (put (put d i (claimed begin.transfer_id)) i zero_file) =
        rw (put-put d i (claimed begin.transfer_id) zero_file)
          (discard_incoming_file-IsValid i v inside) in
      elim (Result-cases (build_path directory begin.filename)) [
        | inl (e, h) ↦ rw (open_staging, h) gone
        | inr (path, h) ↦ elim (Result-cases (stage answers directory begin.transfer_id)) [
          | inl (e, k) ↦ rw (open_staging, h, k) gone
          | inr (temp, k) ↦
              rw
                (
                  open_staging,
                  h,
                  k,
                  get_or-set d.incoming_files i (claimed begin.transfer_id) zero_file
                      (omega (arith, v.slots)),
                  put-put d i (claimed begin.transfer_id)
                      (opened_file (claimed begin.transfer_id) begin path temp),
                )
                (opened-IsValid i begin path temp inside small fit idle fresh)
        ]
      ]

  begin_created-IsValid :
      (answers : Answers) (directory : List ℕ) (begin : FileBeginFrame)
      → begin.file_size < u64_mod
      → size_refused begin ≡ false
      → IsValid (begin_created answers directory begin (create_incoming_file d begin.transfer_id)).1
  unfolding begin_created create_incoming_file is_idle
  begin_created-IsValid answers directory begin small fit = elim (search begin.transfer_id v) [
    | inr (i, found, inside, hit) ↦ rw (create_incoming_file, found) v
    | inl (none_found, fresh) ↦ elim (find_index-cases is_idle d.incoming_files zero_file) [
      | inl (no_room, c) ↦ rw (create_incoming_file, none_found, no_room) v
      | inr (i, found, inside, idle) ↦
          rw (create_incoming_file, none_found, found)
            (open_staging-IsValid answers directory begin i (omega (arith, v.slots)) small fit
              (ground arith) fresh)
    ]
  ]

  receive_at-IsValid :
      (answers : Answers) (i : ℕ) (contents : List ℕ)
      → i < max_incoming_files
      → IsValid (receive_at answers d i (file_at d.incoming_files i) contents).1
  unfolding receive_at has_transfer
  receive_at-IsValid answers i contents inside =
      let f = file_at d.incoming_files i in
      let gone = discard_incoming_file-IsValid i v inside in
      let n = (u64_mod + f.expected_size - f.received_size) % u64_mod in
      if_cases (λ (o : Result (Unit {0}) × Downloads). IsValid o.1)
        (ltb f.expected_size f.received_size || ltb n (length contents))
        (err efbig, discard_incoming_file d i)
        (elim answers.fwrite [
          | err e ↦ (err e, discard_incoming_file d i)
          | ok u ↦ (done, put d i (grown f contents))
        ])
        (λ h. gone)
        (λ h. elim (Result-cases answers.fwrite) [
          | inl (e, k) ↦ rw k gone
          | inr (u, k) ↦ rw k (
              put-IsValid i (grown f contents) v inside
                (λ a.
                  let (below, same, low, high, small) = Files-at d.incoming_files i v.each a in
                  (
                    ground arith,
                    ground (arith, length-append (staged f) contents),
                    low,
                    high,
                    small,
                  ))
                (λ k. omega (arith, v.ids k, bit-le (has_transfer k f))))
        ])

  begin_decoded-IsValid :
      (answers : Answers) (directory : List ℕ) (begin : FileBeginFrame)
      → begin.file_size < u64_mod
      → IsValid (begin_decoded answers directory d begin).1
  unfolding begin_decoded
  begin_decoded-IsValid answers directory begin small = elim (Bool-cases (size_refused begin)) [
    | inl h ↦ rw h v
    | inr h ↦ elim (Result-cases (ensure_download_directory answers directory)) [
      | inl (e, k) ↦ rw (h, k) v
      | inr (u, k) ↦ rw (h, k) (begin_created-IsValid answers directory begin small h)
    ]
  ]

  receive_file_begin-IsValid :
      (answers : Answers) (directory frame : List ℕ)
      → AreBytes frame
      → IsValid (receive_file_begin answers directory d frame).1
  unfolding receive_file_begin
  receive_file_begin-IsValid answers directory frame bytes =
      elim (Result-cases (decode_begin frame)) [
        | inl (e, h) ↦ rw (receive_file_begin, h) v
        | inr (begin, h) ↦
            rw (receive_file_begin, h)
              (begin_decoded-IsValid answers directory begin
                (decode_begin-range frame begin bytes h).1)
      ]

  receive_file_chunk-IsValid :
      (answers : Answers) (frame : List ℕ) → IsValid (receive_file_chunk answers d frame).1
  unfolding receive_file_chunk
  receive_file_chunk-IsValid answers frame = elim (Result-cases (decode_chunk frame)) [
    | inl (e, h) ↦ rw (receive_file_chunk, h) v
    | inr (chunk, h) ↦ elim (search chunk.transfer_id v) [
      | inl (missing, c) ↦ rw (receive_file_chunk, h, missing) v
      | inr (i, found, inside, hit) ↦
          rw (receive_file_chunk, h, found) (receive_at-IsValid answers i chunk.contents inside)
    ]
  ]

module _ (box : Box) {d : Downloads} (v : IsValid d) where
  save_ok-IsValid :
      (answers : Answers) (i : ℕ) (f : IncomingFile) (contents : List ℕ)
      → i < max_incoming_files
      → IsValid (save box answers d i f (ok contents)).1
  unfolding save
  save_ok-IsValid answers i f contents inside =
      let gone = discard_incoming_file-IsValid i v inside in
      elim (Result-cases answers.fclose) [
        | inl (e, h) ↦ rw h gone
        | inr (u, h) ↦ elim (Result-cases answers.link) [
          | inl (e, k) ↦ rw (h, k) gone
          | inr (w, k) ↦ rw (h, k) (saved-IsValid (d.saved ++ (f.final_path, contents) ∷ []) gone)
        ]
      ]

  end_at-IsValid :
      (answers : Answers) (i : ℕ) (f : IncomingFile) (private_key : List ℕ)
      → i < max_incoming_files
      → IsValid (end_at box answers d i f private_key).1
  unfolding end_at save
  end_at-IsValid answers i f private_key inside =
      let gone = discard_incoming_file-IsValid i v inside in
      if_cases (λ (o : Result (Unit {0}) × Downloads). IsValid o.1)
        (not (f.received_size == f.expected_size)) (err eio, discard_incoming_file d i) _
        (λ h. gone)
        (λ h. elim (Result-cases (decrypt_received_file box answers f private_key)) [
          | inl (e, k) ↦ rw k gone
          | inr (contents, k) ↦ rw k (save_ok-IsValid answers i f contents inside)
        ])

  receive_file_error-IsValid : (frame : List ℕ) → IsValid (receive_file_error box d frame).1
  unfolding receive_file_error
  receive_file_error-IsValid frame = elim (Result-cases (decode_control frame frame_file_error)) [
    | inl (e, h) ↦ rw (receive_file_error, h) v
    | inr (id, h) ↦ elim (search id v) [
      | inl (missing, c) ↦ rw (receive_file_error, h, missing) v
      | inr (i, found, inside, hit) ↦
          rw (receive_file_error, h, found) (discard_incoming_file-IsValid i v inside)
    ]
  ]

  receive_file_end-IsValid :
      (answers : Answers) (frame private_key : List ℕ)
      → IsValid (receive_file_end box answers d frame private_key).1
  unfolding receive_file_end
  receive_file_end-IsValid answers frame private_key =
      elim (Result-cases (decode_control frame frame_file_end)) [
        | inl (e, h) ↦ rw (receive_file_end, h) v
        | inr (id, h) ↦ elim (search id v) [
          | inl (missing, c) ↦ rw (receive_file_end, h, missing) v
          | inr (i, found, inside, hit) ↦
              rw (receive_file_end, h, found)
                (end_at-IsValid answers i (file_at d.incoming_files i) private_key inside)
        ]
      ]

  -- From a valid table of incoming files (16 slots, no transfer id twice, and in each taken slot no more
  -- received than declared, which is what the staging file holds), each frame of bytes, whatever the file
  -- system, malloc and libsodium answer, leads to a valid one.
  pub handle_incoming_file_frame-IsValid :
      (answers : Answers) (directory private_key frame : List ℕ)
      → AreBytes frame
      → IsValid (handle_incoming_file_frame box answers directory private_key d frame).1
  unfolding handle_incoming_file_frame
  handle_incoming_file_frame-IsValid answers directory private_key frame bytes =
      let Keeps : Result (Unit {0}) × Downloads → Type 0 = λ o. IsValid o.1 in
      let refused : Result (Unit {0}) × Downloads = (err einval, d) in
      if_cases Keeps (length frame == 0) refused _ (λ _. v)
        (λ _.
          if_cases Keeps (byte frame 0 == frame_file_begin)
            (receive_file_begin answers directory d frame) _
            (λ _. receive_file_begin-IsValid v answers directory frame bytes)
            (λ _.
              if_cases Keeps (byte frame 0 == frame_file_chunk) (receive_file_chunk answers d frame)
                _ (λ _. receive_file_chunk-IsValid v answers frame)
                (λ _.
                  if_cases Keeps (byte frame 0 == frame_file_end)
                    (receive_file_end box answers d frame private_key) _
                    (λ _. receive_file_end-IsValid answers frame private_key)
                    (λ _.
                      if_cases Keeps (byte frame 0 == frame_file_error)
                        (receive_file_error box d frame) refused
                        (λ _. receive_file_error-IsValid frame) (λ _. v)))))
