-- ===== src/Wire/RoundTrip.antt =====
-- Reading what was written, and writing what was read.
use cipher_chat.Prelude.{ℕ, ◌<◌, ◌≡◌, List, [], ◌∷◌, ◌++◌, arith}
use cipher_chat.Wire.{
  u16_mod, u32_mod, u64_mod, read_u16, read_u32, read_u64, write_u16, write_u32, write_u64,
}

pub read_u16-write_u16 : (v : ℕ) (rest : List ℕ) → v < u16_mod → read_u16 (write_u16 v ++ rest) ≡ v
unfolding read_u16 write_u16
read_u16-write_u16 v rest h = omega arith

pub read_u32-write_u32 : (v : ℕ) (rest : List ℕ) → v < u32_mod → read_u32 (write_u32 v ++ rest) ≡ v
unfolding read_u32 write_u32
read_u32-write_u32 v rest h = omega arith

pub read_u64-write_u64 : (v : ℕ) (rest : List ℕ) → v < u64_mod → read_u64 (write_u64 v ++ rest) ≡ v
unfolding read_u64 write_u64
read_u64-write_u64 v rest h = omega arith

-- A list of bytes.
abbrev pub AreBytes : List ℕ → Type 0
AreBytes [] = Unit {0}
AreBytes (b ∷ bs) = (b < 256) × AreBytes bs

pub write_u16-read_u16 :
    (a b : ℕ) (rest : List ℕ)
    → AreBytes (a ∷ b ∷ rest)
    → write_u16 (read_u16 (a ∷ b ∷ rest)) ≡ a ∷ b ∷ []
unfolding read_u16 write_u16
write_u16-read_u16 a b rest h = ground arith

pub write_u32-read_u32 :
    (a b c d : ℕ) (rest : List ℕ)
    → AreBytes (a ∷ b ∷ c ∷ d ∷ rest)
    → write_u32 (read_u32 (a ∷ b ∷ c ∷ d ∷ rest)) ≡ a ∷ b ∷ c ∷ d ∷ []
unfolding read_u32 write_u32
write_u32-read_u32 a b c d rest h = ground arith
