-- ===== src/Validation.antt =====
-- The checks of strings that cross into the domain, crates/relayterm-core/src/validation.rs.
-- A string is a list of code points; a validated string is the string itself, its type left out.
pub mod Accepts
pub mod Tags
mod Tests
use relay_term.Prelude.{
  ℕ, ◌+◌, ◌%◌, ◌^◌, Bool, true, false, not, ◌&&◌, ◌||◌, List, [], ◌∷◌, ◌++◌, Option, none, some,
  if◌then◌else◌, ltb, leb, ◌==◌, length,
}
use relay_term.Prelude.Calls.{Result, ok, err}
use relay_term.Auth.{Text}
use relay_term.Auth.Text.{same_text, byte_length, is_whitespace, trim_start, trim_end}

pub data Field : Type 0 where
  host_display_name hostname ssh_port ssh_username profile_name tag tags : Field

pub data ValidationError : Type 0 where
  empty : Field → ValidationError
  too_long : Field → ℕ → ℕ → ValidationError
  control_char : Field → ValidationError
  whitespace : Field → ValidationError
  invalid_char : Field → ℕ → ValidationError
  surrounding : Field → ValidationError
  bad_leading_char : Field → ValidationError
  out_of_range : Field → ℕ → ℕ → ℕ → ValidationError
  too_many : Field → ℕ → ℕ → ValidationError
  duplicate : Field → Text → ValidationError

abbrev pub max_tags : ℕ
max_tags = 32

-- `char::is_control`.
unfoldable pub is_control : ℕ → Bool
is_control c = ltb c 32 || (leb 127 c && leb c 159)

unfoldable pub is_ascii_alphabetic : ℕ → Bool
is_ascii_alphabetic c = (leb 65 c && leb c 90) || (leb 97 c && leb c 122)

unfoldable pub is_ascii_alphanumeric : ℕ → Bool
is_ascii_alphanumeric c = is_ascii_alphabetic c || (leb 48 c && leb c 57)

unfoldable pub any_char : (ℕ → Bool) → Text → Bool
any_char p [] = false
any_char p (c ∷ cs) = let rest = any_char p cs in if p c then true else rest

-- A loop over the characters that returns at the first error.
unfoldable pub check_chars :
    (ℕ → Option ValidationError) → Text → Text → Result ValidationError Text
check_chars check whole [] = ok whole
check_chars check whole (c ∷ cs) = first (check c) (check_chars check whole cs)
  where
    first : Option ValidationError → Result ValidationError Text → Result ValidationError Text
    first (some e) rest = err e
    first none rest = rest

unfoldable pub is_empty : Text → Bool
is_empty [] = true
is_empty (c ∷ cs) = false

-- The names that the user interface shows, up to `max` characters.
unfoldable pub validate_name : Field → ℕ → Text → Result ValidationError Text
validate_name field max input =
    if is_empty input
    then err (empty field)
    else if not (same_text input (trim_end (trim_start input)))
    then err (surrounding field)
    else if ltb max (length input)
    then err (too_long field max (length input))
    else if any_char is_control input
    then err (control_char field)
    else ok input

unfoldable pub validate_host_display_name : Text → Result ValidationError Text
validate_host_display_name input = validate_name host_display_name 128 input

unfoldable pub validate_profile_name : Text → Result ValidationError Text
validate_profile_name input = validate_name profile_name 64 input

unfoldable pub is_hostname_char : ℕ → Bool
is_hostname_char c =
    is_ascii_alphanumeric c || c == 45 || c == 46 || c == 58 || c == 91 || c == 93 || c == 95

unfoldable pub check_hostname_char : ℕ → Option ValidationError
check_hostname_char c =
    if is_whitespace c
    then some (whitespace hostname)
    else if is_control c
    then some (control_char hostname)
    else if not (is_hostname_char c)
    then some (invalid_char hostname c)
    else none

unfoldable pub validate_hostname : Text → Result ValidationError Text
validate_hostname input =
    if is_empty input
    then err (empty hostname)
    else if ltb 253 (byte_length input)
    then err (too_long hostname 253 (byte_length input))
    else check_chars check_hostname_char input input

-- `port as u16` keeps a port in range.
unfoldable pub validate_ssh_port : ℕ → Result ValidationError ℕ
validate_ssh_port port =
    if not (leb 1 port && leb port 65535)
    then err (out_of_range ssh_port 1 65535 port)
    else ok (port % 2 ^ 16)

unfoldable pub is_username_char : ℕ → Bool
is_username_char c = is_ascii_alphanumeric c || c == 45 || c == 95 || c == 46

unfoldable pub check_username_char : ℕ → Option ValidationError
check_username_char c =
    if not (is_username_char c) then some (invalid_char ssh_username c) else none

unfoldable pub is_leading_char : ℕ → Bool
is_leading_char c = is_ascii_alphabetic c || c == 95

unfoldable pub check_username : Text → Result ValidationError Text
check_username [] = err (empty ssh_username)
check_username (first ∷ chars) =
    if not (is_leading_char first)
    then err (bad_leading_char ssh_username)
    else check_chars check_username_char (first ∷ chars) chars

unfoldable pub validate_ssh_username : Text → Result ValidationError Text
validate_ssh_username input =
    if is_empty input
    then err (empty ssh_username)
    else if ltb 64 (byte_length input)
    then err (too_long ssh_username 64 (byte_length input))
    else check_username input

unfoldable pub is_tag_char : ℕ → Bool
is_tag_char c = is_ascii_alphanumeric c || c == 45 || c == 95

unfoldable pub check_tag_char : ℕ → Option ValidationError
check_tag_char c = if not (is_tag_char c) then some (invalid_char tag c) else none

unfoldable pub validate_tag : Text → Result ValidationError Text
validate_tag input =
    if is_empty input
    then err (empty tag)
    else if ltb 32 (byte_length input)
    then err (too_long tag 32 (byte_length input))
    else check_chars check_tag_char input input

unfoldable pub any_same : Text → List Text → Bool
any_same t [] = false
any_same t (x ∷ xs) = let rest = any_same t xs in if same_text x t then true else rest

-- The loop over the tags, `out` of which are kept.
unfoldable pub collect_tags : List Text → List Text → Result ValidationError (List Text)
collect_tags out [] = ok out
collect_tags out (raw ∷ inputs) = keep (validate_tag raw) (λ t. collect_tags (out ++ t ∷ []) inputs)
  where
    keep :
        Result ValidationError Text
        → (Text → Result ValidationError (List Text))
        → Result ValidationError (List Text)
    keep (err e) rest = err e
    keep (ok t) rest = if any_same t out then err (duplicate tag t) else rest t

unfoldable pub validate_tags : List Text → Result ValidationError (List Text)
validate_tags inputs =
    if ltb max_tags (length inputs)
    then err (too_many tags max_tags (length inputs))
    else collect_tags [] inputs
