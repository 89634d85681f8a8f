-- ===== src/Prelude/Counts.antt =====
-- How a change of an association list changes the number of the values that pass a test.
use Prim.Native.Nat.{◌+◌, ◌≤◌}
use mathlib.Core.Path.{◌≡◌, refl}
use mathlib.Core.Logic.{if_pos, if_neg, inl, inr}
use mathlib.Core.Bool.{Bool, true, false}
use mathlib.Core.Option
use mathlib.Core.Option.{Option, none, some}
use mathlib.Core.List.{List, [], ◌∷◌}
use native.Mathlib.Omega.{arith}
use relay_term.Prelude.Tests.{Bool-cases}
use relay_term.Prelude.Assoc.{get, insert, remove, modify, count_if, one_if, count_if-insert}

one_if_le {ℓ} :
    {V : Type ℓ} (p : V → Bool) (f : V → V) (v : V)
    → (p (f v) ≡ true → p v ≡ true)
    → one_if p (some (f v)) ≤ one_if p (some v)
one_if_le p f v h = elim (Bool-cases (p (f v))) [
  | inl e ↦ rw (e, h e) (omega arith)
  | inr e ↦ rw e (omega arith)
]

module _ {ℓ} {K V : Type ℓ} (p : V → Bool) where
  module _ (dec : Discrete K) (k : K) where
    -- A change after which no other value passes.
    pub count_if-modify-le :
        (f : V → V) (m : List (K × V))
        → ((v : V) → p (f v) ≡ true → p v ≡ true)
        → count_if p (modify dec k f m) ≤ count_if p m
    unfolding count_if modify
    count_if-modify-le f [] h = omega arith
    count_if-modify-le f ((j, v) ∷ m) h = elim (dec j k) [
      | yes e ↦ rw (if_pos (dec j k) e) (omega (arith, one_if_le p f v (h v)))
      | no e ↦ rw (if_neg (dec j k) e) (omega (arith, count_if-modify-le f m h))
    ]

    pub count_if-remove-le : (m : List (K × V)) → count_if p (remove dec k m) ≤ count_if p m
    unfolding count_if remove
    count_if-remove-le [] = omega arith
    count_if-remove-le ((j, v) ∷ m) = elim (dec j k) [
      | yes e ↦ rw (if_pos (dec j k) e) (omega (arith, count_if-remove-le m))
      | no e ↦ rw (if_neg (dec j k) e) (omega (arith, count_if-remove-le m))
    ]

    -- A value that does not pass.
    pub count_if-insert-le :
        (v : V) (m : List (K × V)) → p v ≡ false → count_if p (insert dec k v m) ≤ count_if p m
    count_if-insert-le v m e =
        let one : one_if p (some v) ≡ 0 = rw e refl in
        omega (arith, count_if-insert dec p k v m, one)

    -- A change of one value.
    pub count_if-modify :
        (f : V → V) (m : List (K × V))
        → count_if p (modify dec k f m) + one_if p (get dec k m)
          ≡ count_if p m + one_if p (Option.map f (get dec k m))
    unfolding count_if modify get
    count_if-modify f [] = refl
    count_if-modify f ((j, v) ∷ m) = ground (arith, count_if-modify f m)
