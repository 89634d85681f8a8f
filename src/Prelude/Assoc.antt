-- ===== src/Prelude/Assoc.antt =====
-- `HashMap`: an association list over a decidable key, oldest entry first.
use Prim.Native.Nat.{ℕ, ◌+◌, ◌≤◌}
use mathlib.Core.Path.{◌≡◌, refl, subst}
use mathlib.Core.Logic.{ite, ◌≢◌, inl, inr, if_pos, if_neg}
use mathlib.Core.Bool.{Bool, true, false}
use mathlib.Core.Option
use mathlib.Core.Option.{Option, none, some}
use mathlib.Core.List.{List, [], ◌∷◌}
use native.Mathlib.Omega.{arith}
use relay_term.Prelude.Tests.{if◌then◌else◌, Bool-cases}
use relay_term.Prelude.Lists.{length}

module _ {ℓ} {K V : Type ℓ} where
  -- `retain`: the test sees the key and the value.
  unfoldable pub retain : (K → V → Bool) → List (K × V) → List (K × V)
  retain p [] = []
  retain p ((k, v) ∷ m) = let rest = retain p m in if p k v then (k, v) ∷ rest else rest

  -- `values().filter(p).count()`.
  unfoldable pub count_if : (V → Bool) → List (K × V) → ℕ
  count_if p [] = 0
  count_if p ((k, v) ∷ m) = (if p v then 1 else 0) + count_if p m

  -- `values().any(p)`.
  unfoldable pub any_if : (V → Bool) → List (K × V) → Bool
  any_if p [] = false
  any_if p ((k, v) ∷ m) = let rest = any_if p m in if p v then true else rest

  pub length-retain-le : (p : K → V → Bool) (m : List (K × V)) → length (retain p m) ≤ length m
  unfolding retain
  length-retain-le p [] = omega arith
  length-retain-le p ((k, v) ∷ m) = ground (arith, length-retain-le p m)

-- The same keys with changed values.
abbrev pub map_values {ℓ} : {K V : Type ℓ} → (V → V) → List (K × V) → List (K × V)
map_values f [] = []
map_values f ((k, v) ∷ m) = (k, f v) ∷ map_values f m

-- Whether an optional value passes a test, as 0 or 1.
abbrev pub one_if {ℓ} : {V : Type ℓ} → (V → Bool) → Option V → ℕ
one_if p none = 0
one_if p (some v) = if p v then 1 else 0

abbrev pub keep_value {ℓ} : {V : Type ℓ} → (V → Bool) → Option V → Option V
keep_value p none = none
keep_value p (some v) = if p v then some v else none

module _ {ℓ} {K V : Type ℓ} (dec : Discrete K) where
  unfoldable pub get : K → List (K × V) → Option V
  get k [] = none
  get k ((j, v) ∷ m) = ite (dec j k) (some v) (get k m)

  -- A new key goes to the end, a known one keeps its place.
  unfoldable pub insert : K → V → List (K × V) → List (K × V)
  insert k v [] = (k, v) ∷ []
  insert k v ((j, w) ∷ m) = ite (dec j k) ((j, v) ∷ m) ((j, w) ∷ insert k v m)

  unfoldable pub remove : K → List (K × V) → List (K × V)
  remove k [] = []
  remove k ((j, w) ∷ m) = ite (dec j k) (remove k m) ((j, w) ∷ remove k m)

  -- `if let Some(v) = m.get_mut(&k) { *v = f(v) }`.
  unfoldable pub modify : K → (V → V) → List (K × V) → List (K × V)
  modify k f [] = []
  modify k f ((j, w) ∷ m) = ite (dec j k) ((j, f w) ∷ m) ((j, w) ∷ modify k f m)

  pub get-cons_self : (k : K) (v : V) (m : List (K × V)) → get k ((k, v) ∷ m) ≡ some v
  unfolding get
  get-cons_self k v m = ground arith

  pub get-cons_ne : (j k : K) (v : V) (m : List (K × V)) → j ≢ k → get k ((j, v) ∷ m) ≡ get k m
  unfolding get
  get-cons_ne j k v m h = ground arith

  pub get-insert_self : (k : K) (v : V) (m : List (K × V)) → get k (insert k v m) ≡ some v
  unfolding get insert
  get-insert_self k v [] = ground arith
  get-insert_self k v ((i, w) ∷ m) = ground (arith, get-insert_self k v m)

  pub get-insert_ne : (k j : K) (v : V) (m : List (K × V)) → k ≢ j → get j (insert k v m) ≡ get j m
  unfolding get insert
  get-insert_ne k j v [] h = ground arith
  get-insert_ne k j v ((i, w) ∷ m) h = ground (arith, get-insert_ne k j v m)

  pub get-remove_self : (k : K) (m : List (K × V)) → get k (remove k m) ≡ none
  unfolding get remove
  get-remove_self k [] = refl
  get-remove_self k ((i, w) ∷ m) = ground (arith, get-remove_self k m)

  pub get-remove_ne : (k j : K) (m : List (K × V)) → k ≢ j → get j (remove k m) ≡ get j m
  unfolding get remove
  get-remove_ne k j [] h = refl
  get-remove_ne k j ((i, w) ∷ m) h = ground (arith, get-remove_ne k j m)

  pub get-modify_self :
      (k : K) (f : V → V) (m : List (K × V)) → get k (modify k f m) ≡ Option.map f (get k m)
  unfolding get modify
  get-modify_self k f [] = refl
  get-modify_self k f ((i, w) ∷ m) = ground (arith, get-modify_self k f m)

  pub get-modify_ne :
      (k j : K) (f : V → V) (m : List (K × V)) → k ≢ j → get j (modify k f m) ≡ get j m
  unfolding get modify
  get-modify_ne k j f [] h = refl
  get-modify_ne k j f ((i, w) ∷ m) h = ground (arith, get-modify_ne k j f m)

  pub get-map_values :
      (k : K) (f : V → V) (m : List (K × V)) → get k (map_values f m) ≡ Option.map f (get k m)
  unfolding get
  get-map_values k f [] = refl
  get-map_values k f ((i, w) ∷ m) = ground (arith, get-map_values k f m)

  pub modify_absent : (k : K) (f : V → V) (m : List (K × V)) → get k m ≡ none → modify k f m ≡ m
  unfolding get modify
  modify_absent k f [] h = refl
  modify_absent k f ((i, w) ∷ m) h = ground (arith, modify_absent k f m)

  -- No key stands twice.
  abbrev pub Distinct : List (K × V) → Type ℓ
  Distinct [] = Unit {ℓ}
  Distinct ((k, v) ∷ m) = (get k m ≡ none) × Distinct m

  pub insert-Distinct : (k : K) (v : V) (m : List (K × V)) → Distinct m → Distinct (insert k v m)
  unfolding get insert
  insert-Distinct k v [] h = (refl, tt)
  insert-Distinct k v ((j, w) ∷ m) h =
      ground (arith, insert-Distinct k v m h.1, get-insert_ne k j v m)

  get-remove-none : (k j : K) (m : List (K × V)) → get j m ≡ none → get j (remove k m) ≡ none
  unfolding get remove
  get-remove-none k j [] h = refl
  get-remove-none k j ((i, w) ∷ m) h = ground (arith, get-remove-none k j m)

  pub remove-Distinct : (k : K) (m : List (K × V)) → Distinct m → Distinct (remove k m)
  unfolding get remove
  remove-Distinct k [] h = tt
  remove-Distinct k ((j, w) ∷ m) h = ground (arith, remove-Distinct k m h.1, get-remove-none k j m)

  get-modify-none :
      (k j : K) (f : V → V) (m : List (K × V)) → get j m ≡ none → get j (modify k f m) ≡ none
  unfolding get modify
  get-modify-none k j f [] h = refl
  get-modify-none k j f ((i, w) ∷ m) h = ground (arith, get-modify-none k j f m)

  pub modify-Distinct :
      (k : K) (f : V → V) (m : List (K × V)) → Distinct m → Distinct (modify k f m)
  unfolding get modify
  modify-Distinct k f [] h = tt
  modify-Distinct k f ((j, w) ∷ m) h =
      ground (arith, modify-Distinct k f m h.1, get-modify-none k j f m)

  get-retain-none :
      (p : K → V → Bool) (j : K) (m : List (K × V)) → get j m ≡ none → get j (retain p m) ≡ none
  unfolding get retain
  get-retain-none p j [] h = refl
  get-retain-none p j ((i, w) ∷ m) h = ground (arith, get-retain-none p j m)

  pub retain-Distinct : (p : K → V → Bool) (m : List (K × V)) → Distinct m → Distinct (retain p m)
  unfolding get retain
  retain-Distinct p [] h = tt
  retain-Distinct p ((j, w) ∷ m) h = ground (arith, retain-Distinct p m h.1, get-retain-none p j m)

  -- What `retain` leaves at a key.
  pub get-retain :
      (p : K → V → Bool) (j : K) (m : List (K × V))
      → Distinct m
      → get j (retain p m) ≡ keep_value (p j) (get j m)
  unfolding get retain
  get-retain p j [] h = refl
  get-retain p j ((i, w) ∷ m) h = ground (arith, get-retain p j m h.1, get-retain-none p j m)

  count_if_absent :
      (p : V → Bool) (k : K) (m : List (K × V))
      → get k m ≡ none
      → count_if p (remove k m) ≡ count_if p m
  unfolding count_if get remove
  count_if_absent p k [] h = refl
  count_if_absent p k ((j, w) ∷ m) h = ground (arith, count_if_absent p k m)

  -- An insertion changes a count by the new value and the value that it replaces.
  pub count_if-insert :
      (p : V → Bool) (k : K) (v : V) (m : List (K × V))
      → count_if p (insert k v m) + one_if p (get k m) ≡ count_if p m + one_if p (some v)
  unfolding count_if get insert
  count_if-insert p k v [] = ground arith
  count_if-insert p k v ((j, w) ∷ m) = ground (arith, count_if-insert p k v m)

  pub count_if-remove :
      (p : V → Bool) (k : K) (m : List (K × V))
      → Distinct m
      → count_if p (remove k m) + one_if p (get k m) ≡ count_if p m
  unfolding count_if get remove
  count_if-remove p k [] h = refl
  count_if-remove p k ((j, w) ∷ m) h =
      ground (arith, count_if-remove p k m h.1, count_if_absent p k m)

  pub length-modify : (k : K) (f : V → V) (m : List (K × V)) → length (modify k f m) ≡ length m
  unfolding modify
  length-modify k f [] = refl
  length-modify k f ((j, w) ∷ m) = ground (arith, length-modify k f m)

  pub length-insert_new :
      (k : K) (v : V) (m : List (K × V)) → get k m ≡ none → length (insert k v m) ≡ length m + 1
  unfolding get insert
  length-insert_new k v [] h = omega arith
  length-insert_new k v ((j, w) ∷ m) h = ground (arith, length-insert_new k v m)

  pub length-remove-le : (k : K) (m : List (K × V)) → length (remove k m) ≤ length m
  unfolding remove
  length-remove-le k [] = omega arith
  length-remove-le k ((j, w) ∷ m) = ground (arith, length-remove-le k m)

-- Every stored value has the property.
abbrev pub Values {ℓ} : {K V : Type ℓ} → (V → Type 0) → List (K × V) → Type 0
Values P [] = Unit {0}
Values P ((k, v) ∷ m) = P v × Values P m

module _ {ℓ} {K V : Type ℓ} (P : V → Type 0) where
  pub Values-retain : (p : K → V → Bool) (m : List (K × V)) → Values P m → Values P (retain p m)
  unfolding retain
  Values-retain p [] h = tt
  Values-retain p ((k, v) ∷ m) h = elim (Bool-cases (p k v)) [
    | inl e ↦ rw (e, retain) (h.0, Values-retain p m h.1)
    | inr e ↦ rw (e, retain) (Values-retain p m h.1)
  ]

  module _ (dec : Discrete K) where
    pub Values-insert :
        (k : K) (v : V) (m : List (K × V)) → P v → Values P m → Values P (insert dec k v m)
    unfolding insert
    Values-insert k v [] hv h = (hv, tt)
    Values-insert k v ((j, w) ∷ m) hv h = elim (dec j k) [
      | yes e ↦ rw (if_pos (dec j k) e) (hv, h.1)
      | no e ↦ rw (if_neg (dec j k) e) (h.0, Values-insert k v m hv h.1)
    ]

    pub Values-remove : (k : K) (m : List (K × V)) → Values P m → Values P (remove dec k m)
    unfolding remove
    Values-remove k [] h = tt
    Values-remove k ((j, w) ∷ m) h = elim (dec j k) [
      | yes e ↦ rw (if_pos (dec j k) e) (Values-remove k m h.1)
      | no e ↦ rw (if_neg (dec j k) e) (h.0, Values-remove k m h.1)
    ]

    pub Values-modify :
        (k : K) (f : V → V) (m : List (K × V))
        → ((v : V) → P v → P (f v))
        → Values P m
        → Values P (modify dec k f m)
    unfolding modify
    Values-modify k f [] hf h = tt
    Values-modify k f ((j, w) ∷ m) hf h = elim (dec j k) [
      | yes e ↦ rw (if_pos (dec j k) e) (hf w h.0, h.1)
      | no e ↦ rw (if_neg (dec j k) e) (h.0, Values-modify k f m hf h.1)
    ]

    pub Values-get : (k : K) (m : List (K × V)) {v : V} → Values P m → get dec k m ≡ some v → P v
    unfolding get
    Values-get k [] h e = cc
    Values-get k ((j, w) ∷ m) {v} h e = elim (dec j k) [
      | yes q ↦ let here : w ≡ v = ground arith in subst P here h.0
      | no q ↦ Values-get k m h.1 (rw (if_neg (dec j k) q) at e)
    ]

pub get-nil {ℓ} : {K V : Type ℓ} (dec : Discrete K) (k : K) → get {V = V} dec k [] ≡ none
unfolding get
get-nil dec k = refl
