-- ===== src/Status.antt =====
-- The outcome of a call that returns -1 and sets errno on failure.
use cipher_chat.Prelude.{ℕ, ◌≡◌, refl, ◌⊎◌, inl, inr}

pub data Errno : Type 0 where
  einval emsgsize eproto enoent enospc eexist enobufs enomem econnreset epipe eagain : Errno
  eio ebadmsg efbig enametoolong enotdir eacces enotconn ebadf : Errno
  -- a number that the operating system reports
  os_error : ℕ → Errno

pub data Result {ℓ} (A : Type ℓ) : Type ℓ where
  ok : A → Result A
  err : Errno → Result A

-- `return 0`
abbrev pub done : Result (Unit {0})
done = ok tt

-- To split on a computed result and keep the equation.
pub Result-cases :
    {A : Type 0} (r : Result A) → ((e : Errno) × (r ≡ err e)) ⊎ ((a : A) × (r ≡ ok a))
Result-cases (ok a) = inr (a, refl)
Result-cases (err e) = inl (e, refl)
