-- ===== src/FileSender/Frames.antt =====
-- The frames that a file goes out in.
use cipher_chat.Prelude.{
  ℕ, zero, suc, ◌≤◌, ◌<◌, ◌≡◌, refl, sym, ap, ◌∙◌, subst, inl, true, List, [], ◌∷◌, ◌++◌, arith,
  length, take, drop, length-take, length-drop, take-append-drop,
}
use mathlib.Core.List.{append_assoc, append-nil}
use cipher_chat.Status.{Result, ok, err, done}
use cipher_chat.Wire.{
  u32_mod, u64_mod, file_chunk_size, frame_file_begin, frame_file_chunk, frame_file_end,
}
use cipher_chat.FileProtocol.{
  valid_peer_name, valid_filename, file_begin_payload_max_size, file_chunk_payload_max_size,
  file_control_payload_size, decode_begin, decode_chunk, decode_control,
}
use cipher_chat.FileProtocol.Names.{valid_peer_name-length, valid_filename-length}
use cipher_chat.FileProtocol.RoundTrip.{
  decode-encode_begin, decode-encode_chunk, decode-encode_control,
}
use cipher_chat.FileSender.{
  Line, send_frame, send_payload, send_file_begin, send_file_chunk, send_file_control, send_chunks,
  and_then, send_encrypted,
}

abbrev pub Frames : Type 0
Frames = List (ℕ × List ℕ)

-- Chunk frames of one transfer, and the bytes that they carry together.
pub data Chunks (id : ℕ) : Frames → List ℕ → Type 0 where
  no_chunk : Chunks id [] []
  chunk :
      {frames : Frames} {rest : List ℕ} (contents payload : List ℕ)
      → 1 ≤ length contents
      → length contents ≤ file_chunk_size
      → decode_chunk (frame_file_chunk ∷ payload)
        ≡ ok (record { transfer_id = id; contents = contents })
      → Chunks id frames rest
      → Chunks id ((frame_file_chunk, payload) ∷ frames) (contents ++ rest)

-- A begin frame, chunk frames that carry `bytes`, and an end frame.
pub record Transfer (id : ℕ) (peer filename bytes : List ℕ) (frames : Frames) : Type 0 where
  pub begin : List ℕ
  pub chunks : Frames
  pub last : List ℕ
  pub in_order : frames ≡ (frame_file_begin, begin) ∷ (chunks ++ (frame_file_end, last) ∷ [])
  pub begins :
      decode_begin (frame_file_begin ∷ begin)
      ≡ ok (record { transfer_id = id; file_size = length bytes; peer = peer; filename = filename })
  pub carries : Chunks id chunks bytes
  pub ends : decode_control (frame_file_end ∷ last) frame_file_end ≡ ok id

-- Every call of send_frame succeeds.
abbrev pub AllSent : Line → Type 0
AllSent line = (n : ℕ) → line.answer n ≡ done

abbrev with_frames : Line → Frames → Line
with_frames line frames = record line { frames = frames }

sends :
    (line : Line) (type : ℕ) (payload : List ℕ)
    → AllSent line
    → send_frame line type payload ≡ (done, with_frames line (line.frames ++ (type, payload) ∷ []))
unfolding send_frame
sends line type payload works = rw (works (length line.frames)) refl

-- The next send, behind one that has succeeded.
then_sends :
    {out : Result (Unit {0}) × Line} {line : Line} (next : Line → Result (Unit {0}) × Line)
    → out ≡ (done, line)
    → and_then out next ≡ next line
then_sends next e = ap (λ o. and_then o next) e

-- A payload that has been encoded goes out.
sends_payload :
    (line : Line) (type : ℕ) {payload : List ℕ} {encoded : Result (List ℕ)}
    → AllSent line
    → encoded ≡ ok payload
    → send_payload line type encoded
      ≡ (done, with_frames line (line.frames ++ (type, payload) ∷ []))
sends_payload line type {payload} works e =
    ap (send_payload line type) e ∙ sends line type payload works

module _ (id : ℕ) (small : id < u32_mod) where
  sends_chunk :
      (line : Line) (contents : List ℕ)
      → AllSent line
      → 1 ≤ length contents
      → length contents ≤ file_chunk_size
      → (payload : List ℕ) × (send_file_chunk line id contents
          ≡ (done, with_frames line (line.frames ++ (frame_file_chunk, payload) ∷ [])))
        × (decode_chunk (frame_file_chunk ∷ payload)
            ≡ ok (record { transfer_id = id; contents = contents }))
  unfolding send_file_chunk
  sends_chunk line contents works lo hi =
      let (payload, e, d) =
        decode-encode_chunk file_chunk_payload_max_size id contents lo hi small (omega arith) in
      (payload, rw (send_file_chunk, e) (sends line frame_file_chunk payload works), d)

  next_round :
      (fuel : ℕ) (line : Line) (b : ℕ) (bs : List ℕ) {after : Line}
      → send_file_chunk line id (take file_chunk_size (b ∷ bs)) ≡ (done, after)
      → send_chunks (suc fuel) line id (b ∷ bs)
        ≡ send_chunks fuel after id (drop file_chunk_size (b ∷ bs))
  unfolding send_chunks
  next_round fuel line b bs e =
      ap
        (λ (o : Result (Unit {0}) × Line). elim o.0 as (λ _. Result (Unit {0}) × Line) [
          | ok u ↦ send_chunks fuel o.1 id (drop file_chunk_size (b ∷ bs))
          | err e ↦ (err e, o.1)
        ])
        e

  send_chunks-Chunks :
      (fuel : ℕ) (line : Line) (bytes : List ℕ)
      → AllSent line
      → length bytes ≤ fuel
      → (chunks : Frames) × (send_chunks fuel line id bytes
          ≡ (done, with_frames line (line.frames ++ chunks)))
        × Chunks id chunks bytes
  unfolding send_chunks
  send_chunks-Chunks fuel line [] works enough =
      ([], ap (λ fs. (done, with_frames line fs)) (sym (append-nil line.frames)), no_chunk)
  send_chunks-Chunks zero line (b ∷ bs) works enough = absurd (omega arith)
  send_chunks-Chunks (suc fuel) line (b ∷ bs) works enough =
      let contents = take file_chunk_size (b ∷ bs) in
      let behind = drop file_chunk_size (b ∷ bs) in
      let (payload, sent, d) =
        sends_chunk line contents works (omega (arith, length-take file_chunk_size (b ∷ bs)))
          (omega (arith, length-take file_chunk_size (b ∷ bs))) in
      let (chunks, rest, carried) =
        send_chunks-Chunks fuel (with_frames line (line.frames ++ (frame_file_chunk, payload) ∷ []))
          behind works (omega (arith, length-drop file_chunk_size (b ∷ bs))) in
      (
        (frame_file_chunk, payload) ∷ chunks,
        next_round fuel line b bs sent
            ∙ (rest
                ∙ ap (λ fs. (done, with_frames line fs))
                    (append_assoc line.frames ((frame_file_chunk, payload) ∷ []) chunks)),
        subst (Chunks id ((frame_file_chunk, payload) ∷ chunks))
            (take-append-drop file_chunk_size (b ∷ bs))
            (chunk contents payload (omega (arith, length-take file_chunk_size (b ∷ bs)))
              (omega (arith, length-take file_chunk_size (b ∷ bs))) d carried),
      )

  -- With a transfer id of 32 bits, valid names, fewer than 2^64 encrypted bytes, and if every call of
  -- send_frame succeeds: `send_file` returns 0 behind the encryption, and has sent a begin frame that
  -- decodes to the id, both names and the number of the bytes, then chunk frames of 1 to 900 bytes that
  -- decode to the id and whose bytes joined are the encrypted ones, and an end frame of the id, and
  -- nothing else.
  pub send_encrypted-Transfer :
      (line : Line) (recipient filename encrypted : List ℕ)
      → AllSent line
      → valid_peer_name recipient ≡ true
      → valid_filename filename ≡ true
      → length encrypted < u64_mod
      → (frames : Frames) × (send_encrypted line id recipient filename encrypted
          ≡ (done, record line { frames = line.frames ++ frames }))
        × Transfer id recipient filename encrypted frames
  unfolding send_encrypted send_file_begin send_file_control
  send_encrypted-Transfer line recipient filename encrypted works vp vf short =
      let (begin, e, d) =
        decode-encode_begin file_begin_payload_max_size id (length encrypted) recipient filename vp
          vf small short
          (omega (arith, valid_peer_name-length recipient vp, valid_filename-length filename vf)) in
      let (last, el, dl, other) =
        decode-encode_control file_control_payload_size id frame_file_end frame_file_end (inl refl)
          small (omega arith) in
      let begun = with_frames line (line.frames ++ (frame_file_begin, begin) ∷ []) in
      let (chunks, gone_out, carried) =
        send_chunks-Chunks (length encrypted) begun encrypted works (omega arith) in
      let between = with_frames line (begun.frames ++ chunks) in
      (
        (frame_file_begin, begin) ∷ (chunks ++ (frame_file_end, last) ∷ []),
        then_sends
              (λ begun.
                and_then (send_chunks (length encrypted) begun id encrypted)
                  (λ sent. send_file_control sent frame_file_end id))
              (sends_payload line frame_file_begin works e)
            ∙ (then_sends (λ sent. send_file_control sent frame_file_end id) gone_out
                ∙ (sends_payload between frame_file_end works el
                    ∙ ap (λ fs. (done, with_frames line fs))
                        (append_assoc begun.frames chunks ((frame_file_end, last) ∷ [])
                          ∙ append_assoc line.frames ((frame_file_begin, begin) ∷ [])
                              (chunks ++ (frame_file_end, last) ∷ [])))),
        record {
          begin = begin;
          chunks = chunks;
          last = last;
          in_order = refl;
          begins = d;
          carries = carried;
          ends = dl;
        },
      )
