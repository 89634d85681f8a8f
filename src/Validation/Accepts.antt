-- ===== src/Validation/Accepts.antt =====
-- Which strings the checks of crates/relayterm-core/src/validation.rs let through.
use relay_term.Prelude.{
  ℕ, ◌≤◌, ◌<◌, ◌≡◌, ◌↔◌, ◌⊎◌, ◌∙◌, ◌||◌, ◌&&◌, ◌==◌, leb, subst, refl, sym, ap, Bool, Bool-cases,
  true, false, inl, inr, Option, none, some, [], ◌∷◌, if◌then◌else◌, ltb, length, All, arith,
}
use mathlib.Core.Bool.{true≢false}
use relay_term.Prelude.Calls.{Result, ok, err}
use relay_term.Auth.{Text}
use relay_term.Auth.Text.{byte_length, len_utf8, is_whitespace}
use relay_term.Validation.{
  Field, empty, too_long, whitespace, control_char, invalid_char, hostname, tag, ValidationError,
  is_control, is_ascii_alphabetic, is_ascii_alphanumeric, check_chars, is_empty, is_hostname_char,
  check_hostname_char, validate_hostname, is_tag_char, check_tag_char, validate_tag,
}

-- From `least` to `most` characters, each of which passes.
abbrev pub Spelled : (ℕ → Bool) → ℕ → Text → Type 0
Spelled p most s = (1 ≤ length s) × (length s ≤ most) × All (λ c. p c ≡ true) s

abbrev pub is_ok : {E A : Type 0} → Result E A → Bool
is_ok (ok a) = true
is_ok (err e) = false

abbrev pub value_or : {E A : Type 0} → A → Result E A → A
value_or d (ok a) = a
value_or d (err e) = d

pub err_ok : {E A : Type 0} (e : E) (a : A) → Path (Result E A) (err e) (ok a) → ⊥
err_ok e a h = true≢false (sym (ap is_ok h))

-- A string of ASCII characters has as many bytes as characters.
ascii_length :
    (p : ℕ → Bool) (s : Text)
    → ((c : ℕ) → p c ≡ true → c < 128)
    → All (λ c. p c ≡ true) s
    → byte_length s ≡ length s
unfolding byte_length len_utf8
ascii_length p [] h a = refl
ascii_length p (c ∷ cs) h a =
    let low : ltb c 128 ≡ true = ground (arith, h c a.0) in
    rw low (omega (arith, ascii_length p cs h a.1))

short : (most b l : ℕ) → ltb most b ≡ false → b ≡ l → l ≤ most
short most b l e h = ground arith

within : (most b l : ℕ) → b ≡ l → l ≤ most → ltb most b ≡ false
within most b l e h = ground arith

module _ (p : ℕ → Bool) (check : ℕ → Option ValidationError)
    (passes : (c : ℕ) → p c ≡ true → check c ≡ none)
    (fails : (c : ℕ) → p c ≡ false → (e : ValidationError) × (check c ≡ some e)) where
  checked : (whole s : Text) → All (λ c. p c ≡ true) s → check_chars check whole s ≡ ok whole
  unfolding check_chars
  checked whole [] a = refl
  checked whole (c ∷ cs) a = rw (passes c a.0) (checked whole cs a.1)

  checked-All :
      (whole s t : Text) → check_chars check whole s ≡ ok t → (t ≡ whole) × All (λ c. p c ≡ true) s
  unfolding check_chars
  checked-All whole [] t h = (ap (value_or whole) (sym h), tt)
  checked-All whole (c ∷ cs) t h = elim (Bool-cases (p c)) [
    | inl e ↦ let (same, rest) = checked-All whole cs t (rw (passes c e) at h) in (same, (e, rest))
    | inr e ↦ let (error, found) = fails c e in absurd (err_ok error t (rw found at h))
  ]

  module _ (field : Field) (most : ℕ) (ascii : (c : ℕ) → p c ≡ true → c < 128) where
    -- A check of the length and of each character lets through what is spelled with them.
    pub bounded_iff :
        (s t : Text)
        → ((if is_empty s
              then err (empty field)
              else if ltb most (byte_length s)
              then err (too_long field most (byte_length s))
              else check_chars check s s)
            ≡ ok t)
          ↔ ((t ≡ s) × Spelled p most s)
    unfolding is_empty
    bounded_iff [] t = (
      λ h. absurd (err_ok (empty field) t h),
      λ (same, (some_char, few, all)). absurd (omega arith),
    )
    bounded_iff (c ∷ cs) t = (
      λ h. elim (Bool-cases (ltb most (byte_length (c ∷ cs)))) [
        | inl e ↦ absurd (err_ok _ t (rw e at h))
        | inr e ↦
            let (same, all) = checked-All (c ∷ cs) (c ∷ cs) t (rw e at h) in
            let bytes : byte_length (c ∷ cs) ≡ length (c ∷ cs) =
              ascii_length p (c ∷ cs) ascii all in
            (same, (omega arith, short most _ _ e bytes, all))
      ],
      λ (same, (some_char, few, all)).
          let bytes : byte_length (c ∷ cs) ≡ length (c ∷ cs) = ascii_length p (c ∷ cs) ascii all in
          rw (within most _ _ bytes few)
            (checked (c ∷ cs) (c ∷ cs) all ∙ ap (λ x. ok x) (sym same)),
    )

tag_ascii : (c : ℕ) → is_tag_char c ≡ true → c < 128
unfolding is_tag_char is_ascii_alphanumeric is_ascii_alphabetic
tag_ascii c h = ground arith

hostname_ascii : (c : ℕ) → is_hostname_char c ≡ true → c < 128
unfolding is_hostname_char is_ascii_alphanumeric is_ascii_alphabetic
hostname_ascii c h = ground arith

hostname_graphic : (c : ℕ) → is_hostname_char c ≡ true → 45 ≤ c
unfolding is_hostname_char is_ascii_alphanumeric is_ascii_alphabetic
hostname_graphic c h = ground arith

hostname_low : (c : ℕ) → is_hostname_char c ≡ true → c < 123
unfolding is_hostname_char is_ascii_alphanumeric is_ascii_alphabetic
hostname_low c h = ground arith

graphic_whitespace : (c : ℕ) → 45 ≤ c → c < 123 → is_whitespace c ≡ false
unfolding is_whitespace
graphic_whitespace c h k = ground arith

graphic_control : (c : ℕ) → 45 ≤ c → c < 123 → is_control c ≡ false
unfolding is_control
graphic_control c h k = ground arith

tag_check : (c : ℕ) → is_tag_char c ≡ true → check_tag_char c ≡ none
unfolding check_tag_char
tag_check c h = rw h refl

tag_refused : (c : ℕ) → is_tag_char c ≡ false → (e : ValidationError) × (check_tag_char c ≡ some e)
unfolding check_tag_char
tag_refused c h = (invalid_char tag c, rw h refl)

hostname_check : (c : ℕ) → is_hostname_char c ≡ true → check_hostname_char c ≡ none
unfolding check_hostname_char
hostname_check c h =
    let low : 45 ≤ c = hostname_graphic c h in
    let high : c < 123 = hostname_low c h in
    rw (graphic_whitespace c low high, graphic_control c low high, h) refl

hostname_refused :
    (c : ℕ) → is_hostname_char c ≡ false → (e : ValidationError) × (check_hostname_char c ≡ some e)
unfolding check_hostname_char
hostname_refused c h = elim (Bool-cases (is_whitespace c)) [
  | inl w ↦ (whitespace hostname, rw w refl)
  | inr w ↦ elim (Bool-cases (is_control c)) [
    | inl x ↦ (control_char hostname, rw (w, x) refl)
    | inr x ↦ (invalid_char hostname c, rw (w, x, h) refl)
  ]
]

-- A tag is accepted, as it is, exactly when it has 1 to 32 characters, each a letter, a digit, `-` or `_`
-- of ASCII.
pub validate_tag_iff : (s t : Text) → (validate_tag s ≡ ok t) ↔ ((t ≡ s) × Spelled is_tag_char 32 s)
unfolding validate_tag
validate_tag_iff s t =
    bounded_iff is_tag_char check_tag_char tag_check tag_refused tag 32 tag_ascii s t

-- What a host name is spelled with: the letters and digits of ASCII, and `-.:[]_`.
pub data HostnameChar : ℕ → Type 0 where
  a_digit : {c : ℕ} → 48 ≤ c → c ≤ 57 → HostnameChar c
  a_capital : {c : ℕ} → 65 ≤ c → c ≤ 90 → HostnameChar c
  a_small : {c : ℕ} → 97 ≤ c → c ≤ 122 → HostnameChar c
  a_dash : HostnameChar 45
  a_point : HostnameChar 46
  a_colon : HostnameChar 58
  an_opening : HostnameChar 91
  a_closing : HostnameChar 93
  an_underscore : HostnameChar 95

either : (a b : Bool) → (a || b) ≡ true → (a ≡ true) ⊎ (b ≡ true)
either true b h = inl refl
either false b h = inr h

is_char : (c k : ℕ) → (c == k) ≡ true → HostnameChar k → HostnameChar c
is_char c k h char = let same : k ≡ c = ground arith in subst HostnameChar same char

letter_or_digit : (c : ℕ) → is_ascii_alphanumeric c ≡ true → HostnameChar c
unfolding is_ascii_alphanumeric is_ascii_alphabetic
letter_or_digit c h = elim (either (is_ascii_alphabetic c) (leb 48 c && leb c 57) h) [
  | inr d ↦ a_digit (ground arith) (ground arith)
  | inl l ↦ elim (either (leb 65 c && leb c 90) (leb 97 c && leb c 122) l) [
    | inl d ↦ a_capital (ground arith) (ground arith)
    | inr d ↦ a_small (ground arith) (ground arith)
  ]
]

-- One more character beside those of the test `a`.
or_char :
    (a : Bool) (c k : ℕ)
    → (a ≡ true → HostnameChar c)
    → HostnameChar k
    → (a || c == k) ≡ true
    → HostnameChar c
or_char a c k rest char h = elim (either a (c == k) h) [
  | inl x ↦ rest x
  | inr x ↦ is_char c k x char
]

allowed-HostnameChar : (c : ℕ) → is_hostname_char c ≡ true → HostnameChar c
unfolding is_hostname_char
allowed-HostnameChar c h =
    or_char _ c 95
      (or_char _ c 93
        (or_char _ c 91
          (or_char _ c 58 (or_char _ c 46 (or_char _ c 45 (letter_or_digit c) a_dash) a_point)
            a_colon)
          an_opening)
        a_closing)
      an_underscore h

HostnameChar-allowed : (c : ℕ) → HostnameChar c → is_hostname_char c ≡ true
unfolding is_hostname_char is_ascii_alphanumeric is_ascii_alphabetic
HostnameChar-allowed c (a_digit a b) = ground (arith, a, b)
HostnameChar-allowed c (a_capital a b) = ground (arith, a, b)
HostnameChar-allowed c (a_small a b) = ground (arith, a, b)
HostnameChar-allowed c a_dash = refl
HostnameChar-allowed c a_point = refl
HostnameChar-allowed c a_colon = refl
HostnameChar-allowed c an_opening = refl
HostnameChar-allowed c a_closing = refl
HostnameChar-allowed c an_underscore = refl

All-implies : (P Q : ℕ → Type 0) (s : Text) → ((c : ℕ) → P c → Q c) → All P s → All Q s
All-implies P Q [] f h = tt
All-implies P Q (c ∷ cs) f h = (f c h.0, All-implies P Q cs f h.1)

-- A host name is accepted, as it is, exactly when it has 1 to 253 characters, each a letter, a digit or one
-- of `-.:[]_` of ASCII.
pub validate_hostname_iff :
    (s t : Text)
    → (validate_hostname s ≡ ok t)
      ↔ ((t ≡ s) × (1 ≤ length s) × (length s ≤ 253) × All HostnameChar s)
unfolding validate_hostname
validate_hostname_iff s t =
    let (accepted, spelled) =
      bounded_iff is_hostname_char check_hostname_char hostname_check hostname_refused hostname 253
        hostname_ascii s t in
    (
      λ h.
          let (same, (some_char, few, all)) = accepted h in
          (same, some_char, few, All-implies _ _ s allowed-HostnameChar all),
      λ (same, some_char, few, all).
          spelled (same, (some_char, few, All-implies _ _ s HostnameChar-allowed all)),
    )
