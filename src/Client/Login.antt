-- ===== src/Client/Login.antt =====
-- client.c: `get_username_and_register_in_server`, from the line typed to the name sent, and
-- `receive_welcome_message`. The bytes of the terminal and what receive_message returns are parameters.
use cipher_chat.Prelude.{
  ℕ, zero, suc, ◌≡◌, refl, ◌||◌, Option, none, some, List, [], ◌∷◌, ◌++◌, arith, ltb, leb, ◌==◌,
  if◌then◌else◌, length, take, ap, ◌∙◌, ◌≢◌,
}
use cipher_chat.Status.{Errno, Result, ok, err, done, einval, econnreset, eacces}
use cipher_chat.Text.{codes, str_eq}
use cipher_chat.Wire.{username_size}
use cipher_chat.Registry.{plain, username_is_valid}
use cipher_chat.Chat.{plain_name}

-- `fgets` into a buffer of n + 1 bytes.
unfoldable pub read_line : ℕ → List ℕ → List ℕ
read_line zero input = []
read_line (suc n) [] = []
read_line (suc n) (c ∷ cs) = let rest = read_line n cs in c ∷ (if c == 10 then [] else rest)

-- `strchr(username, '\n')`, and what stands before the newline; a zero byte ends the string.
unfoldable pub cut_line : List ℕ → Option (List ℕ)
cut_line [] = none
cut_line (c ∷ cs) =
    let rest = cut_line cs in
    if c == 10
    then some []
    else if c == 0
    then none
    else elim rest [ none ↦ none | some line ↦ some (c ∷ line) ]

unfoldable pub check_username : Option (List ℕ) → Result (List ℕ)
check_username none = err einval
check_username (some name) =
    if length name == 0 || leb username_size (length name)
    then err einval
    else if plain_name name
    then ok name
    else err einval

-- The name that is sent; `at_end` is the errno that `fgets` leaves at the end of the input.
unfoldable pub get_username : Errno → List ℕ → Result (List ℕ)
unfolding read_line cut_line check_username
get_username at_end [] = err at_end
get_username at_end (c ∷ cs) = check_username (cut_line (read_line username_size (c ∷ cs)))

unfoldable pub receive_welcome_message : Result (List ℕ) → Result (Unit {0})
receive_welcome_message (err e) = err e
receive_welcome_message (ok []) = err econnreset
receive_welcome_message (ok (c ∷ cs)) =
    if str_eq (take 13 (c ∷ cs)) (codes "Login failed:") then err eacces else done

-- What a line holds before its end.
abbrev pub IsLine : List ℕ → Type 0
IsLine [] = Unit {0}
IsLine (c ∷ cs) = (c ≢ 0) × (c ≢ 10) × IsLine cs

cut_line-read_line :
    (n : ℕ) (name rest : List ℕ)
    → IsLine name
    → cut_line (read_line n (name ++ 10 ∷ rest)) ≡ (if ltb (length name) n then some name else none)
unfolding cut_line read_line
cut_line-read_line zero name rest h = ground arith
cut_line-read_line (suc n) [] rest h = ground arith
cut_line-read_line (suc n) (c ∷ cs) rest h = ground (arith, cut_line-read_line n cs rest h.2)

plain_name-plain : (name : List ℕ) → plain_name name ≡ plain name
unfolding plain_name plain
plain_name-plain [] = refl
plain_name-plain (c ∷ cs) = ground (arith, plain_name-plain cs)

check_username_lem :
    (name : List ℕ)
    → check_username (if ltb (length name) username_size then some name else none)
      ≡ (if username_is_valid name then ok name else err einval)
unfolding check_username username_is_valid
check_username_lem name = ground (arith, plain_name-plain name)

-- Whatever is typed before the first newline, without zero bytes: the client sends it as its name exactly if the
-- server takes it for a valid one, and fails with EINVAL otherwise.
pub get_username-username_is_valid :
    (at_end : Errno) (name rest : List ℕ)
    → IsLine name
    → get_username at_end (name ++ 10 ∷ rest)
      ≡ (if username_is_valid name then ok name else err einval)
unfolding get_username
get_username-username_is_valid at_end [] rest h =
    ap check_username (cut_line-read_line username_size [] rest h) ∙ check_username_lem []
get_username-username_is_valid at_end (c ∷ cs) rest h =
    ap check_username (cut_line-read_line username_size (c ∷ cs) rest h)
    ∙ check_username_lem (c ∷ cs)
