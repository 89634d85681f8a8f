-- ===== src/Auth/Text.antt =====
-- The functions on `str` that the login routes call, on code points, and `normalize_login_identifier`
-- of crates/relayterm-auth/src/throttle.rs.
use relay_term.Prelude.{
  ℕ, ◌+◌, ◌/◌, ◌%◌, Bool, true, false, ◌&&◌, ◌||◌, List, [], ◌∷◌, ◌++◌, if◌then◌else◌, ltb, leb,
  ◌==◌, ℕ_discrete, map,
}
use mathlib.Core.List.{List-discrete}
use relay_term.Auth.{Text}

unfoldable pub Text-discrete : Discrete Text
Text-discrete = List-discrete ℕ_discrete

unfoldable pub same_text : Text → Text → Bool
same_text [] [] = true
same_text [] (y ∷ ys) = false
same_text (x ∷ xs) [] = false
same_text (x ∷ xs) (y ∷ ys) = x == y && same_text xs ys

-- The bytes that a code point takes in UTF-8.
unfoldable pub len_utf8 : ℕ → ℕ
len_utf8 c = if ltb c 128 then 1 else if ltb c 2048 then 2 else if ltb c 65536 then 3 else 4

-- `str::len`.
unfoldable pub byte_length : Text → ℕ
byte_length [] = 0
byte_length (c ∷ cs) = len_utf8 c + byte_length cs

-- `char::is_whitespace`.
unfoldable pub is_whitespace : ℕ → Bool
is_whitespace c =
    (leb 9 c && leb c 13)
    || c == 32
    || c == 133
    || c == 160
    || c == 5760
    || (leb 8192 c && leb c 8202)
    || c == 8232
    || c == 8233
    || c == 8239
    || c == 8287
    || c == 12288

unfoldable pub trim_start : Text → Text
trim_start [] = []
trim_start (c ∷ cs) = let rest = trim_start cs in if is_whitespace c then rest else c ∷ cs

unfoldable pub trim_end : Text → Text
trim_end [] = []
trim_end (c ∷ cs) = keep_front c (trim_end cs)
  where
    keep_front : ℕ → Text → Text
    keep_front c [] = if is_whitespace c then [] else c ∷ []
    keep_front c (d ∷ ds) = c ∷ d ∷ ds

unfoldable pub to_ascii_lowercase : Text → Text
to_ascii_lowercase cs = map (λ c. if leb 65 c && leb c 90 then c + 32 else c) cs

unfoldable pub normalize_login_identifier : Text → Text
normalize_login_identifier raw = to_ascii_lowercase (trim_end (trim_start raw))

-- `as_bytes`.
unfoldable pub encode_utf8 : ℕ → List ℕ
encode_utf8 c =
    if ltb c 128
    then c ∷ []
    else if ltb c 2048
    then (192 + c / 64) ∷ (128 + c % 64) ∷ []
    else if ltb c 65536
    then (224 + c / 4096) ∷ (128 + (c / 64) % 64) ∷ (128 + c % 64) ∷ []
    else (240 + c / 262144) ∷ (128 + (c / 4096) % 64) ∷ (128 + (c / 64) % 64) ∷ (128 + c % 64) ∷ []

unfoldable pub as_bytes : Text → List ℕ
as_bytes [] = []
as_bytes (c ∷ cs) = encode_utf8 c ++ as_bytes cs
