-- ===== src/Transport/Receive.antt =====
-- `recv_all` on a connection that delivers: however the bytes are cut into reads, and whatever
-- retries come between them, it returns exactly the bytes asked for.
use cipher_chat.Prelude.{
  ℕ, zero, suc, ◌-◌, ◌≤◌, ◌≡◌, refl, sym, ap, ◌∙◌, true, false, List, [], ◌∷◌, ◌++◌, arith, inl,
  inr, leb, leb→le, ◌==◌, length, take, drop, Bool-cases, take-append_ge, take-append_le,
  drop-append_ge, drop-append_le, length-append,
}
use mathlib.Core.List.{append_assoc, append-nil}
use cipher_chat.Status.{ok}
use cipher_chat.Transport.{
  ReadEvent, arrived, want_read, want_write, closed, broken, Received, received, recv_loop,
  recv_all,
}

-- Reads that deliver bytes or ask for a retry: no timeout, no close_notify, no fatal error.
abbrev pub Delivers : List ReadEvent → Type 0
Delivers [] = Unit {0}
Delivers (arrived bs ∷ es) = Delivers es
Delivers (want_read timed_out ∷ es) = (timed_out ≡ false) × Delivers es
Delivers (want_write timed_out ∷ es) = (timed_out ≡ false) × Delivers es
Delivers (closed ∷ es) = ⊥
Delivers (broken e ∷ es) = ⊥

-- The bytes that they deliver.
abbrev pub bytes_of : List ReadEvent → List ℕ
bytes_of [] = []
bytes_of (arrived bs ∷ es) = bs ++ bytes_of es
bytes_of (_ ∷ es) = bytes_of es

abbrev pub Returns : Received (List ℕ) → List ℕ → List ℕ → Type 0
Returns r bytes rest =
    (es : List ReadEvent) × (r ≡ received (ok bytes) false es) × Delivers es × (bytes_of es ≡ rest)

recv_loop-zero :
    (n : ℕ) (acc : List ℕ) (es : List ReadEvent)
    → (n == 0) ≡ true
    → recv_loop n acc es ≡ received (ok acc) false es
unfolding recv_loop
recv_loop-zero n acc [] e = ground arith
recv_loop-zero n acc (arrived bs ∷ es) e = ground arith
recv_loop-zero n acc (want_read t ∷ es) e = ground arith
recv_loop-zero n acc (want_write t ∷ es) e = ground arith
recv_loop-zero n acc (closed ∷ es) e = ground arith
recv_loop-zero n acc (broken x ∷ es) e = ground arith

take_none : (n : ℕ) (xs : List ℕ) → (n == 0) ≡ true → (take n xs ≡ []) × (drop n xs ≡ xs)
take_none zero xs e = (refl, refl)
take_none (suc n) xs e = absurd (ground arith)

finished :
    (n : ℕ) (acc : List ℕ) (es : List ReadEvent)
    → (n == 0) ≡ true
    → Delivers es
    → Returns (recv_loop n acc es) (acc ++ take n (bytes_of es)) (drop n (bytes_of es))
finished n acc es e d =
    let (none_taken, all_left) = take_none n (bytes_of es) e in
    (
      es,
      recv_loop-zero n acc es e
          ∙ ap (λ bs. received (ok bs) false es)
              (sym (append-nil acc) ∙ ap (λ bs. acc ++ bs) (sym none_taken)),
      d,
      sym all_left,
    )

pub recv_loop-Returns :
    (n : ℕ) (acc : List ℕ) (es : List ReadEvent)
    → Delivers es
    → n ≤ length (bytes_of es)
    → Returns (recv_loop n acc es) (acc ++ take n (bytes_of es)) (drop n (bytes_of es))
unfolding recv_loop
recv_loop-Returns n acc [] d h = finished n acc [] (ground arith) d
recv_loop-Returns n acc (arrived bs ∷ es) d h = elim (Bool-cases (n == 0)) [
  | inl e ↦ finished n acc (arrived bs ∷ es) e d
  | inr more ↦ elim (Bool-cases (leb (length bs) n)) [
    | inl whole ↦
        rw
          (
            more,
            whole,
            take-append_ge n bs (bytes_of es) (leb→le (length bs) n whole),
            drop-append_ge n bs (bytes_of es) (leb→le (length bs) n whole),
            sym (append_assoc acc bs (take (n - length bs) (bytes_of es))),
          )
          (recv_loop-Returns (n - length bs) (acc ++ bs) es d
            (omega (arith, length-append bs (bytes_of es))))
    | inr part ↦
        rw
          (
            more,
            part,
            take-append_le n bs (bytes_of es) (ground arith),
            drop-append_le n bs (bytes_of es) (ground arith),
          )
          (arrived (drop n bs) ∷ es, refl, d, refl)
  ]
]
recv_loop-Returns n acc (want_read t ∷ es) d h = elim (Bool-cases (n == 0)) [
  | inl e ↦ finished n acc (want_read t ∷ es) e d
  | inr more ↦ rw (more, d.0) (recv_loop-Returns n acc es d.1 h)
]
recv_loop-Returns n acc (want_write t ∷ es) d h = elim (Bool-cases (n == 0)) [
  | inl e ↦ finished n acc (want_write t ∷ es) e d
  | inr more ↦ rw (more, d.0) (recv_loop-Returns n acc es d.1 h)
]
recv_loop-Returns n acc (closed ∷ es) d h = elim d [ ]
recv_loop-Returns n acc (broken e ∷ es) d h = elim d [ ]

-- `recv_all` on a connection that has not failed returns exactly the bytes asked for, if the reads
-- deliver at least as many, without a timeout, a close or an error; what follows stays to be read.
pub recv_all-Returns :
    (n : ℕ) (es : List ReadEvent)
    → Delivers es
    → n ≤ length (bytes_of es)
    → Returns (recv_all false n es) (take n (bytes_of es)) (drop n (bytes_of es))
unfolding recv_all
recv_all-Returns n es d h = recv_loop-Returns n [] es d h
