-- ===== src/Text.antt =====
-- What the sources use of the C library: the character classes of <ctype.h> in the "C" locale
-- (client_manager.c, server.c, command_parser.c and file_protocol.c call no setlocale), and snprintf
-- with `%s` and PRIu32. A NUL-terminated string is the list of its characters, without the
-- terminator.
use Prim.Native.Char.{code}
use Prim.Native.String.{String}
use cipher_chat.Prelude.{
  ℕ, zero, suc, ◌+◌, ◌/◌, ◌%◌, Bool, true, false, ◌&&◌, ◌||◌, List, [], ◌∷◌, ◌++◌, leb, ltb, ◌==◌,
  if◌then◌else◌, length,
}

-- The bytes of an ASCII literal.
abbrev pub codes : String → List ℕ
codes String.[] = []
codes (String.◌∷◌ c s) = code c ∷ codes s

unfoldable pub isspace : ℕ → Bool
isspace c = c == 32 || (leb 9 c && leb c 13)

unfoldable pub iscntrl : ℕ → Bool
iscntrl c = leb c 31 || c == 127

-- `strcmp(a, b) == 0`, and `memcmp` of two arrays of one size.
unfoldable pub str_eq : List ℕ → List ℕ → Bool
str_eq [] [] = true
str_eq [] (y ∷ ys) = false
str_eq (x ∷ xs) [] = false
str_eq (x ∷ xs) (y ∷ ys) = x == y && str_eq xs ys

-- `memchr(bytes, byte, n) != NULL`
unfoldable pub memchr : ℕ → List ℕ → Bool
memchr byte [] = false
memchr byte (x ∷ xs) = x == byte || memchr byte xs

-- Decimal digits; ten rounds are enough for an unsigned 32-bit number.
unfoldable pub digits : ℕ → ℕ → List ℕ
digits zero n = []
digits (suc fuel) n =
    let more = digits fuel (n / 10) in
    if ltb n 10 then (48 + n) ∷ [] else more ++ (48 + n % 10) ∷ []

unfoldable pub decimal : ℕ → List ℕ
unfolding digits
decimal n = digits 10 n

-- `written > 0 && (size_t)written < sizeof(buffer)` after an snprintf that formats `text`.
unfoldable pub fits : List ℕ → ℕ → Bool
fits text size = ltb 0 (length text) && ltb (length text) size
