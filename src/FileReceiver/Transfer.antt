-- ===== src/FileReceiver/Transfer.antt =====
-- A whole transfer, from the frames that `send_file` sends to the file that `receive_file_end` saves.
use cipher_chat.Prelude.{
  ℕ, ◌+◌, ◌-◌, ◌%◌, ◌≤◌, ◌<◌, ◌≡◌, refl, sym, ap, ◌∙◌, true, false, ◌||◌, List, [], ◌∷◌, ◌++◌, none,
  some, inl, inr, arith, length, set, length-append, ltb, ◌==◌, get_or-set, get_elem?-eq-get_or,
}
use mathlib.Core.List.{append_assoc, append-nil}
use cipher_chat.Prelude.Table.{
  count, find_index, find_index-cases, find_index-set, count_zero-find_index, count-set,
}
use cipher_chat.Status.{Result, ok, done}
use cipher_chat.Wire.{
  u64_mod, chat_nonce_size, chat_public_key_size, frame_file_begin, frame_file_chunk,
  frame_file_end,
}
use cipher_chat.FileProtocol.{FileBeginFrame, decode_begin, decode_chunk, decode_control}
use cipher_chat.FileCrypto.{
  Box, encrypt_file, decrypt_file, file_crypto_overhead, file_plaintext_max_size,
  max_incoming_files,
}
use cipher_chat.FileCrypto.RoundTrip.{decrypt-encrypt_file}
use cipher_chat.FileSender.Frames.{Frames, Chunks, no_chunk, chunk, Transfer}
use cipher_chat.FileReceiver.{
  IncomingFile, zero_file, Downloads, Answers, file_at, put, has_transfer, find_incoming_file,
  is_idle, create_incoming_file, build_path, stage, open_staging, begin_created, size_refused,
  begin_decoded, ensure_download_directory, receive_file_begin, receive_at, receive_file_chunk,
  decrypt_received_file, save, end_at, receive_file_end, handle_incoming_file_frame,
}
use cipher_chat.FileReceiver.Invariant.{IsValid}
use cipher_chat.FileReceiver.Preserve.{claimed, opened_file, grown, put-put}

-- Every call behind a frame succeeds.
pub record Works (answers : Answers) (directory filename : List ℕ) (id : ℕ) (path temp : List ℕ)
    : Type 0 where
  pub directory_there : ensure_download_directory answers directory ≡ done
  pub path_fits : build_path directory filename ≡ ok path
  pub staging_open : stage answers directory id ≡ ok temp
  pub writes : answers.fwrite ≡ done
  pub allocates : answers.malloc ≡ done
  pub reads_back : answers.read_back ≡ done
  pub rewrites : answers.rewrite ≡ done
  pub closes : answers.fclose ≡ done
  pub links : answers.link ≡ done

abbrev with_bytes : IncomingFile → List ℕ → IncomingFile
with_bytes f bytes = record f { file = some bytes; received_size = length bytes }

module _ (answers : Answers) (directory private_key : List ℕ) (box : Box) where
  -- The frames of a connection, one after the other.
  unfoldable pub receive_all : Downloads → Frames → Downloads
  receive_all d [] = d
  receive_all d ((type, payload) ∷ frames) =
      receive_all
        (handle_incoming_file_frame box answers directory private_key d (type ∷ payload)).1 frames

  begin_dispatch :
      (d : Downloads) (payload : List ℕ)
      → handle_incoming_file_frame box answers directory private_key d (frame_file_begin ∷ payload)
        ≡ receive_file_begin answers directory d (frame_file_begin ∷ payload)
  unfolding handle_incoming_file_frame
  begin_dispatch d payload = ground arith

  chunk_dispatch :
      (d : Downloads) (payload : List ℕ)
      → handle_incoming_file_frame box answers directory private_key d (frame_file_chunk ∷ payload)
        ≡ receive_file_chunk answers d (frame_file_chunk ∷ payload)
  unfolding handle_incoming_file_frame
  chunk_dispatch d payload = ground arith

  end_dispatch :
      (d : Downloads) (payload : List ℕ)
      → handle_incoming_file_frame box answers directory private_key d (frame_file_end ∷ payload)
        ≡ receive_file_end box answers d (frame_file_end ∷ payload) private_key
  unfolding handle_incoming_file_frame
  end_dispatch d payload = ground arith

module _ {answers : Answers} {directory filename path temp : List ℕ} {id : ℕ}
    (works : Works answers directory filename id path temp) {d : Downloads} (v : IsValid d)
    (fresh : count (has_transfer id) d.incoming_files ≡ 0) (i : ℕ)
    (inside : i < max_incoming_files) where
  found :
      (f : IncomingFile)
      → f.active ≡ true
      → f.transfer_id ≡ id
      → find_incoming_file id (set d.incoming_files i f) ≡ some i
  unfolding find_incoming_file has_transfer
  found f a t =
      find_index-set (has_transfer id) d.incoming_files i f fresh (omega (arith, v.slots))
        (ground arith)

  creates :
      find_index is_idle d.incoming_files ≡ some i
      → create_incoming_file d id ≡ (ok i, put d i (claimed id))
  unfolding create_incoming_file find_incoming_file
  creates idle =
      rw
        (
          create_incoming_file,
          find_incoming_file,
          count_zero-find_index (has_transfer id) d.incoming_files fresh,
          idle,
        )
        refl

  opens :
      (begin : FileBeginFrame)
      → build_path directory begin.filename ≡ ok path
      → stage answers directory begin.transfer_id ≡ ok temp
      → open_staging answers directory begin (put d i (claimed id)) i
        ≡ (done, put d i (opened_file (claimed id) begin path temp))
  unfolding open_staging
  opens begin p t =
      rw
        (
          open_staging,
          p,
          t,
          get_or-set d.incoming_files i (claimed id) zero_file (omega (arith, v.slots)),
        )
        (ap (λ g. (done, g)) (put-put d i (claimed id) (opened_file (claimed id) begin path temp)))

  begins :
      (size : ℕ) (peer payload : List ℕ)
      → let begin : FileBeginFrame = record {
        transfer_id = id;
        file_size = size;
        peer = peer;
        filename = filename;
      } in
        size_refused begin ≡ false
        → find_index is_idle d.incoming_files ≡ some i
        → decode_begin (frame_file_begin ∷ payload) ≡ ok begin
        → receive_file_begin answers directory d (frame_file_begin ∷ payload)
          ≡ (done, put d i (opened_file (claimed id) begin path temp))
  unfolding receive_file_begin begin_decoded begin_created
  begins size peer payload fit idle decoded =
      rw (receive_file_begin, decoded, fit, works.directory_there, creates idle)
        (opens (record { transfer_id = id; file_size = size; peer = peer; filename = filename })
          works.path_fits works.staging_open)

  module _ (f : IncomingFile) (taken : f.active ≡ true) (named : f.transfer_id ≡ id)
      (small : f.expected_size < u64_mod) where
    chunk_fits :
        (bytes contents : List ℕ)
        → length bytes + length contents ≤ f.expected_size
        → let g = with_bytes f bytes in
          (ltb g.expected_size g.received_size
            || ltb ((u64_mod + g.expected_size - g.received_size) % u64_mod) (length contents))
          ≡ false
    chunk_fits bytes contents room = ground arith

    grows :
        (bytes contents : List ℕ)
        → length bytes + length contents ≤ f.expected_size
        → grown (with_bytes f bytes) contents ≡ with_bytes f (bytes ++ contents)
    grows bytes contents room =
        ap (λ n. record f { file = some (bytes ++ contents); received_size = n })
          {x = (length bytes + length contents) % u64_mod} {y = length (bytes ++ contents)}
          (omega (arith, length-append bytes contents))

    writes :
        (e : Downloads) (g : IncomingFile) (contents : List ℕ)
        → (ltb g.expected_size g.received_size
            || ltb ((u64_mod + g.expected_size - g.received_size) % u64_mod) (length contents))
          ≡ false
        → receive_at answers e i g contents ≡ (done, put e i (grown g contents))
    unfolding receive_at
    writes e g contents room = rw (room, works.writes) refl

    takes_chunk :
        (bytes contents payload : List ℕ)
        → length bytes + length contents ≤ f.expected_size
        → decode_chunk (frame_file_chunk ∷ payload)
          ≡ ok (record { transfer_id = id; contents = contents })
        → receive_file_chunk answers (put d i (with_bytes f bytes)) (frame_file_chunk ∷ payload)
          ≡ (done, put d i (with_bytes f (bytes ++ contents)))
    unfolding receive_file_chunk
    takes_chunk bytes contents payload room decoded =
        let g = with_bytes f bytes in
        let there : file_at (set d.incoming_files i g) i ≡ g =
          get_or-set d.incoming_files i g zero_file (omega (arith, v.slots)) in
        let reaches : receive_file_chunk answers (put d i g) (frame_file_chunk ∷ payload)
            ≡ receive_at answers (put d i g) i (file_at (set d.incoming_files i g) i) contents =
          rw (receive_file_chunk, decoded, found g taken named) refl in
        reaches
        ∙ (ap (λ h. receive_at answers (put d i g) i h contents) there
            ∙ (writes (put d i g) g contents (chunk_fits bytes contents room)
                ∙ ap (λ e. (done, e))
                    (put-put d i g (grown g contents) ∙ ap (put d i) (grows bytes contents room))))

    receive_all-Chunks :
        (private_key : List ℕ) (box : Box) {chunks : Frames} {rest : List ℕ} (bytes : List ℕ)
        (behind : Frames)
        → Chunks id chunks rest
        → length bytes + length rest ≤ f.expected_size
        → receive_all answers directory private_key box
            (put d i (with_bytes f bytes))
            (chunks ++ behind)
          ≡ receive_all answers directory private_key box
              (put d i (with_bytes f (bytes ++ rest)))
              behind
    unfolding receive_all
    receive_all-Chunks private_key box bytes behind no_chunk room =
        ap (λ bs. receive_all answers directory private_key box (put d i (with_bytes f bs)) behind)
          (sym (append-nil bytes))
    receive_all-Chunks private_key box bytes behind
          (chunk {frames} {rest} contents payload lo hi decoded more) room =
        let whole = length-append contents rest in
        ap
          (λ (o : Result (Unit {0}) × Downloads).
            receive_all answers directory private_key box o.1 (frames ++ behind))
          (chunk_dispatch answers directory private_key box (put d i (with_bytes f bytes)) payload
            ∙ takes_chunk bytes contents payload (omega arith) decoded)
        ∙ (receive_all-Chunks private_key box (bytes ++ contents) behind more
              (omega (arith, length-append bytes contents))
            ∙ ap
                (λ bs.
                  receive_all answers directory private_key box (put d i (with_bytes f bs)) behind)
                (append_assoc bytes contents rest))

    takes_end :
        (private_key : List ℕ) (box : Box) (bytes contents payload : List ℕ)
        → length bytes ≡ f.expected_size
        → decrypt_file box f.filename bytes private_key ≡ ok contents
        → decode_control (frame_file_end ∷ payload) frame_file_end ≡ ok id
        → receive_file_end box answers
            (put d i (with_bytes f bytes))
            (frame_file_end ∷ payload)
            private_key
          ≡ (done, record (put d i zero_file) { saved = d.saved ++ (f.final_path, contents) ∷ [] })
    unfolding receive_file_end end_at decrypt_received_file save
    takes_end private_key box bytes contents payload whole opened decoded =
        let g = with_bytes f bytes in
        let same : (length bytes == f.expected_size) ≡ true = ground arith in
        rw
          (
            receive_file_end,
            decoded,
            found g taken named,
            get_or-set d.incoming_files i g zero_file (omega (arith, v.slots)),
            same,
            works.allocates,
            same,
            works.reads_back,
            opened,
            works.rewrites,
            works.closes,
            works.links,
          )
          (ap
            (λ (e : Downloads).
              (done, record e { saved = d.saved ++ (f.final_path, contents) ∷ [] }))
            (put-put d i g zero_file))

  cleared : find_incoming_file id (set d.incoming_files i zero_file) ≡ none
  unfolding find_incoming_file has_transfer
  cleared =
      let at = get_elem?-eq-get_or d.incoming_files i zero_file (omega (arith, v.slots)) in
      count_zero-find_index (has_transfer id) (set d.incoming_files i zero_file) (
        omega (
          arith,
          fresh,
          count-set (has_transfer id) d.incoming_files i zero_file (file_at d.incoming_files i) at,
        ))

  whole_transfer :
      (peer private_key : List ℕ) (box : Box) {contents encrypted : List ℕ} {frames : Frames}
      → (file_crypto_overhead + length filename ≤ length encrypted)
        × (length encrypted ≤ file_crypto_overhead + length filename + file_plaintext_max_size)
        × (length filename ≤ 255)
      → find_index is_idle d.incoming_files ≡ some i
      → decrypt_file box filename encrypted private_key ≡ ok contents
      → Transfer id peer filename encrypted frames
      → receive_all answers directory private_key box d frames
        ≡ record (put d i zero_file) { saved = d.saved ++ (path, contents) ∷ [] }
  unfolding receive_all size_refused
  whole_transfer peer private_key box {contents} {encrypted} size idle opened t =
      let begin : FileBeginFrame = record {
        transfer_id = id;
        file_size = length encrypted;
        peer = peer;
        filename = filename;
      } in
      let f = opened_file (claimed id) begin path temp in
      let fit : size_refused begin ≡ false = ground arith in
      let small : f.expected_size < u64_mod = omega arith in
      let all = receive_all answers directory private_key box in
      ap (all d) t.in_order
      ∙ (ap
            (λ (o : Result (Unit {0}) × Downloads).
              all o.1 (t.chunks ++ (frame_file_end, t.last) ∷ []))
            (begin_dispatch answers directory private_key box d t.begin
              ∙ begins (length encrypted) peer t.begin fit idle t.begins)
          ∙ (receive_all-Chunks f refl refl small private_key box [] ((frame_file_end, t.last) ∷ [])
                t.carries (omega arith)
              ∙ ap (λ (o : Result (Unit {0}) × Downloads). o.1)
                  (end_dispatch answers directory private_key box (put d i (with_bytes f encrypted))
                      t.last
                    ∙ takes_end f refl refl small private_key box encrypted contents t.last refl
                        opened t.ends)))

-- With a valid table that has room and does not have the id, if every call behind a frame succeeds and
-- crypto_box opens what it has sealed: when the frames of the transfer of an encrypted file, of at most
-- 16 MiB and a name of at most 255 bytes, have been handled one after the other, the file has been saved
-- with its contents under its name in the directory, nothing else has been saved, and no entry has the id.
pub receive_all-Transfer :
    (answers : Answers) (directory : List ℕ) (box : Box) {d : Downloads} {id : ℕ}
    (peer filename path temp contents nonce pk sk pk' sk' : List ℕ) {encrypted : List ℕ}
    {frames : Frames}
    → IsValid d
    → count (has_transfer id) d.incoming_files ≡ 0
    → 1 ≤ count is_idle d.incoming_files
    → Works answers directory filename id path temp
    → length filename ≤ 255
    → length contents ≤ file_plaintext_max_size
    → length nonce ≡ chat_nonce_size
    → length pk ≡ chat_public_key_size
    → box.IsKeyPair pk sk
    → box.IsKeyPair pk' sk'
    → encrypt_file box filename contents nonce pk' pk sk ≡ ok encrypted
    → Transfer id peer filename encrypted frames
    → let after = receive_all answers directory sk' box d frames in
      (after.saved ≡ d.saved ++ (path, contents) ∷ [])
      × (find_incoming_file id after.incoming_files ≡ none)
unfolding receive_all
receive_all-Transfer answers directory box {d} {id} peer filename path temp contents nonce pk sk pk'
      sk' {encrypted} {frames} v fresh room works short fits ln lk pair pair' sealed t =
    let (sized, opened) =
      decrypt-encrypt_file box filename contents nonce pk sk pk' sk' short ln lk pair pair'
        sealed in
    elim (find_index-cases is_idle d.incoming_files zero_file) [
      | inl (full, none_idle) ↦ absurd (omega arith)
      | inr (i, idle, low, hit) ↦
          let inside : i < max_incoming_files = omega (arith, v.slots) in
          let end : Downloads = record (put d i zero_file) {
            saved = d.saved ++ (path, contents) ∷ [];
          } in
          let whole : receive_all answers directory sk' box d frames ≡ end =
            whole_transfer works v fresh i inside peer sk' box (omega arith, omega arith, short)
              idle opened t in
          (
            ap (λ e. e.saved) whole,
            ap (λ e. find_incoming_file id e.incoming_files) whole ∙ cleared works v fresh i inside,
          )
    ]
