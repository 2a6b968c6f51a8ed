-- ===== src/CommandParser.antt =====
-- command_parser.h and command_parser.c: `parse_command`. It cuts its argument in place by zero bytes
-- and returns pointers into it; the model returns the strings at those pointers.
use cipher_chat.Prelude.{
  ℕ, zero, suc, Bool, ◌||◌, Option, none, some, List, [], ◌∷◌, leb, ◌==◌, if◌then◌else◌, length,
  get_or, take,
}
use cipher_chat.Text.{codes, isspace, str_eq}
use cipher_chat.Wire.{username_size}

pub data ClientCommand : Type 0 where
  unknown invalid private_message broadcast_message list_users help quit file_transfer :
      ClientCommand

-- A pointer that may be NULL is an option.
pub record ParsedCommand : Type 0 where
  pub type : ClientCommand
  pub username : Option (List ℕ)
  pub message : Option (List ℕ)
  pub filepath : Option (List ℕ)

unfoldable pub skip_whitespace : List ℕ → List ℕ
skip_whitespace [] = []
skip_whitespace (c ∷ cs) = let rest = skip_whitespace cs in if isspace c then rest else c ∷ cs

-- `while (length > 0 && drops(text[length - 1])) text[--length] = '\0';`: the length that stays.
unfoldable pub kept_length : (ℕ → Bool) → List ℕ → ℕ → ℕ
kept_length drops text zero = 0
kept_length drops text (suc n) =
    let shorter = kept_length drops text n in if drops (get_or text n 0) then shorter else suc n

unfoldable pub trim_end : (ℕ → Bool) → List ℕ → List ℕ
unfolding kept_length
trim_end drops text = take (kept_length drops text (length text)) text

unfoldable pub is_line_ending : ℕ → Bool
is_line_ending c = c == 10 || c == 13

unfoldable pub remove_line_ending : List ℕ → List ℕ
unfolding trim_end is_line_ending
remove_line_ending = trim_end is_line_ending

-- The characters up to the first space, and what starts at that space.
unfoldable pub word : List ℕ → List ℕ
word [] = []
word (c ∷ cs) = let rest = word cs in if isspace c then [] else c ∷ rest

unfoldable pub after_word : List ℕ → List ℕ
after_word [] = []
after_word (c ∷ cs) = let rest = after_word cs in if isspace c then c ∷ cs else rest

-- `skip_whitespace(cursor + 1)` at a space, the empty string at the terminator.
unfoldable pub skip_gap : List ℕ → List ℕ
unfolding skip_whitespace
skip_gap [] = []
skip_gap (c ∷ cs) = skip_whitespace cs

abbrev pub bare : ClientCommand → ParsedCommand
bare type = record { type = type; username = none; message = none; filepath = none }

abbrev pub is_empty : List ℕ → Bool
is_empty text = length text == 0

-- A command without arguments.
unfoldable pub parse_bare : ClientCommand → List ℕ → ParsedCommand
parse_bare type arguments = if is_empty arguments then bare type else bare invalid

unfoldable pub parse_broadcast : List ℕ → ParsedCommand
parse_broadcast arguments =
    if is_empty arguments
    then bare invalid
    else record (bare broadcast_message) { message = some arguments }

unfoldable pub parse_private : List ℕ → ParsedCommand
unfolding word after_word skip_gap
parse_private arguments =
    let username = word arguments in
    let message = skip_gap (after_word arguments) in
    if is_empty arguments || is_empty (after_word arguments)
    then bare invalid
    else if is_empty message || leb username_size (length username)
    then bare invalid
    else record (bare private_message) { username = some username; message = some message }

unfoldable pub parse_file : List ℕ → ParsedCommand
unfolding word after_word skip_gap trim_end
parse_file arguments =
    let username = word arguments in
    let filepath = trim_end isspace (skip_gap (after_word arguments)) in
    if is_empty arguments || is_empty (after_word arguments)
    then bare invalid
    else if is_empty filepath || leb username_size (length username)
    then bare invalid
    else record (bare file_transfer) { username = some username; filepath = some filepath }

-- The chain of comparisons of the command name.
unfoldable pub parse_verb : List ℕ → List ℕ → ParsedCommand
unfolding parse_bare parse_broadcast parse_private parse_file
parse_verb verb arguments =
    if str_eq verb (codes "/list")
    then parse_bare list_users arguments
    else if str_eq verb (codes "/help")
    then parse_bare help arguments
    else if str_eq verb (codes "/quit")
    then parse_bare quit arguments
    else if str_eq verb (codes "/broadcast")
    then parse_broadcast arguments
    else if str_eq verb (codes "/msg")
    then parse_private arguments
    else if str_eq verb (codes "/file")
    then parse_file arguments
    else bare unknown

unfoldable pub parse_command : List ℕ → ParsedCommand
unfolding remove_line_ending parse_verb skip_whitespace word after_word skip_gap
parse_command command =
    let text = skip_whitespace (remove_line_ending command) in
    parse_verb (word text) (skip_gap (after_word text))
