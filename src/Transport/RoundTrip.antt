-- ===== src/Transport/RoundTrip.antt =====
-- A frame that comes in over a connection that delivers.
use cipher_chat.Prelude.{
  ℕ, ◌<◌, ◌≡◌, ap, ◌∙◌, Bool, true, false, ◌||◌, Option, some, List, [], ◌∷◌, ◌++◌, arith, ltb,
  ◌==◌, length, take, drop, length-append, take-append, drop-append,
}
use cipher_chat.Status.{ok}
use cipher_chat.Wire.{u32_mod, frame_max_size, write_u32, is_valid_frame_type}
use cipher_chat.Wire.RoundTrip.{read_u32-write_u32}
use cipher_chat.Transport.{
  ReadEvent, Received, received, recv_all, exactly, header, payload_of, typed, receive_frame,
}
use cipher_chat.Transport.Receive.{Delivers, bytes_of, Returns, recv_all-Returns}

-- What comes next on the connection is what `recv_all` returns.
recv_all-next :
    (bs rest : List ℕ) (es : List ReadEvent)
    → Delivers es
    → bytes_of es ≡ bs ++ rest
    → Returns (recv_all false (length bs) es) bs rest
recv_all-next bs rest es d e =
    let (es', r, d', e') =
      recv_all-Returns (length bs) es d (rw e (omega (arith, length-append bs rest))) in
    (
      es',
      r ∙ ap (λ b. received (ok b) false es') (ap (take (length bs)) e ∙ take-append bs rest),
      d',
      e' ∙ ap (drop (length bs)) e ∙ drop-append bs rest,
    )

abbrev Header : Received (Option ℕ) → ℕ → List ℕ → Type 0
Header r n rest =
    (es : List ReadEvent) × (r ≡ received (ok (some n)) false es)
    × Delivers es
    × (bytes_of es ≡ rest)

header-length :
    (n : ℕ) (rest : List ℕ) (es : List ReadEvent)
    → n < u32_mod
    → Delivers es
    → bytes_of es ≡ write_u32 n ++ rest
    → Header (header (recv_all false 4 es)) n rest
unfolding header write_u32
header-length n rest es small d e =
    let (es', r, d', e') = recv_all-next (write_u32 n) rest es d e in
    (
      es',
      ap header r ∙ ap (λ m. received (ok (some m)) false es') (read_u32-write_u32 n [] small),
      d',
      e',
    )

payload_of-length :
    (refused : ℕ → Bool) (bs rest : List ℕ) (r : Received (Option ℕ))
    → refused (length bs) ≡ false
    → Header r (length bs) (bs ++ rest)
    → Returns (payload_of refused r) bs rest
unfolding payload_of exactly
payload_of-length refused bs rest r accepted (es, head, d, e) =
    let (es', body, d', e') = recv_all-next bs rest es d e in
    (es', rw (head, accepted, body) (ground arith), d', e')

-- On a connection that delivers, the four bytes of a length, a known type and a payload are
-- received as the type and the payload, if they fit in the buffer and in the largest frame, however
-- the bytes are cut into reads and whatever retries come between. What comes behind the frame stays
-- to be read.
pub receive_frame-frame :
    (capacity type : ℕ) (payload rest : List ℕ) (es : List ReadEvent)
    → is_valid_frame_type type ≡ true
    → length payload < frame_max_size
    → length payload < capacity
    → Delivers es
    → bytes_of es ≡ write_u32 (length (type ∷ payload)) ++ ((type ∷ payload) ++ rest)
    → Returns (receive_frame false capacity es) (type ∷ payload) rest
unfolding receive_frame typed
receive_frame-frame capacity type payload rest es valid small fits d e =
    let refused : ℕ → Bool = λ n. n == 0 || ltb frame_max_size n || ltb capacity n in
    let (es', r, d', e') =
      payload_of-length refused (type ∷ payload) rest (header (recv_all false 4 es)) (ground arith)
        (header-length (length (type ∷ payload)) ((type ∷ payload) ++ rest) es (omega arith) d e) in
    (es', rw (r, valid) (ground arith), d', e')
