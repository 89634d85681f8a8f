-- ===== src/Auth/Constant.antt =====
-- The comparison of the bootstrap token, crates/relayterm-api/src/routes/v1/auth.rs.
use Prim.Native.Nat.{bit_or, bit_xor, bit_or-bitwise, bit_xor-bitwise, digits, differ}
use relay_term.Prelude.{
  ℕ, zero, suc, ◌/◌, ◌%◌, ◌≤◌, ◌≡◌, ◌↔◌, ◌∙◌, refl, sym, ap, ap₂, max, Bool-cases, true, false, inl,
  inr, not, List, [], ◌∷◌, ◌==◌, length, arith,
}
use mathlib.Core.Bool.{true≢false}
use relay_term.Auth.Login.{differences, constant_time_eq}

differ-zero : (x y : ℕ) → differ x y ≡ 0 → x ≡ y
differ-zero zero y e = sym e
differ-zero (suc x) zero e = absurd (omega arith)
differ-zero (suc x) (suc y) e = ap suc (differ-zero x y e)

differ_self : (x : ℕ) → differ x x ≡ 0
differ_self zero = refl
differ_self (suc x) = differ_self x

xor_digits-zero : (n a b : ℕ) → a ≤ n → digits (λ b. b) differ n a b ≡ 0 → a ≡ b
xor_digits-zero zero a b h e = omega arith
xor_digits-zero (suc n) zero b h e = sym e
xor_digits-zero (suc n) (suc a) b h e =
    let high : suc a / 2 ≡ b / 2 =
      xor_digits-zero n (suc a / 2) (b / 2) (omega arith) (omega arith) in
    let low : suc a % 2 ≡ b % 2 = differ-zero (suc a % 2) (b % 2) (omega arith) in
    omega (arith, high, low)

xor_digits_self : (n a : ℕ) → a ≤ n → digits (λ b. b) differ n a a ≡ 0
xor_digits_self zero a h = omega arith
xor_digits_self (suc n) zero h = refl
xor_digits_self (suc n) (suc a) h =
    omega (arith, xor_digits_self n (suc a / 2) (omega arith), differ_self (suc a % 2))

or_digits-zero : (n a b : ℕ) → a ≤ n → digits (λ b. b) max n a b ≡ 0 → (a ≡ 0) × (b ≡ 0)
or_digits-zero zero a b h e = (omega arith, omega arith)
or_digits-zero (suc n) zero b h e = (refl, e)
or_digits-zero (suc n) (suc a) b h e =
    let (high, low) = or_digits-zero n (suc a / 2) (b / 2) (omega arith) (omega arith) in
    (omega (arith, high), omega (arith, low))

differences-zero :
    (diff : ℕ) (a b : List ℕ)
    → length a ≡ length b
    → differences diff a b ≡ 0
    → (diff ≡ 0) × (a ≡ b)
unfolding differences
differences-zero diff [] [] h e = (e, refl)
differences-zero diff [] (y ∷ ys) h e = absurd (omega arith)
differences-zero diff (x ∷ xs) [] h e = absurd (omega arith)
differences-zero diff (x ∷ xs) (y ∷ ys) h e =
    let (here, later) = differences-zero (bit_or diff (bit_xor x y)) xs ys (omega arith) e in
    let (before, same) =
      or_digits-zero diff diff (bit_xor x y) (omega arith)
        (sym (λ i. bit_or-bitwise diff (bit_xor x y) i) ∙ here) in
    let equal : x ≡ y =
      xor_digits-zero x x y (omega arith) (sym (λ i. bit_xor-bitwise x y i) ∙ same) in
    (before, ap₂ (λ v vs. v ∷ vs) equal later)

bit_xor_self : (x : ℕ) → bit_xor x x ≡ 0
bit_xor_self x = (λ i. bit_xor-bitwise x x i) ∙ xor_digits_self x x (omega arith)

differences_self : (a : List ℕ) → differences 0 a a ≡ 0
unfolding differences
differences_self [] = refl
differences_self (x ∷ xs) = rw (bit_xor_self x) (differences_self xs)

same_number : (m n : ℕ) → (m == n) ≡ true → m ≡ n
same_number m n h = ground arith

number_same : (m n : ℕ) → m ≡ n → (m == n) ≡ true
number_same m n h = ground arith

same_length : (m n : ℕ) → not (m == n) ≡ false → m ≡ n
same_length m n h = ground arith

-- The comparison of two slices that always looks at all bytes says `true` exactly when they are equal.
pub constant_time_eq_iff : (a b : List ℕ) → (constant_time_eq a b ≡ true) ↔ (a ≡ b)
unfolding constant_time_eq
constant_time_eq_iff a b = (equal, kept)
  where
    equal : constant_time_eq a b ≡ true → a ≡ b
    equal h = elim (Bool-cases (not (length a == length b))) [
      | inl e ↦ absurd (true≢false (sym (rw e at h)))
      | inr e ↦ (differences-zero 0 a b (same_length _ _ e) (same_number _ _ (rw e at h))).1
    ]

    kept : a ≡ b → constant_time_eq a b ≡ true
    kept e = rw (sym e, number_same (length a) (length a) refl, differences_self a) refl
