-- ===== src/Validation/Tags.antt =====
-- Which lists of tags crates/relayterm-core/src/validation.rs lets through.
use relay_term.Prelude.{
  ℕ, ◌≤◌, ◌≡◌, ◌≢◌, ◌↔◌, ◌⊎◌, ◌∙◌, refl, sym, ap, ap₂, subst, Bool-cases, true, false, inl, inr,
  List, [], ◌∷◌, ◌++◌, append_assoc, append-nil, ltb, length, All, arith,
}
use mathlib.Core.Bool.{true≢false}
use relay_term.Prelude.Calls.{Result, ok, err}
use relay_term.Auth.{Text}
use relay_term.Auth.Text.{same_text}
use relay_term.Validation.{
  duplicate, tag, max_tags, is_tag_char, validate_tag, any_same, collect_tags, validate_tags,
}
use relay_term.Validation.Accepts.{Spelled, err_ok, value_or, validate_tag_iff}

-- No tag stands twice, and none is among `out`.
abbrev pub Fresh : List Text → List Text → Type 0
Fresh out [] = Unit
Fresh out (t ∷ ts) = All (λ x. x ≢ t) out × Fresh (out ++ t ∷ []) ts

same_text-eq : (s t : Text) → same_text s t ≡ true → s ≡ t
unfolding same_text
same_text-eq [] [] h = refl
same_text-eq [] (y ∷ ys) h = absurd (true≢false (sym h))
same_text-eq (x ∷ xs) [] h = absurd (true≢false (sym h))
same_text-eq (x ∷ xs) (y ∷ ys) h =
    ap₂ (λ c cs. c ∷ cs) (ground arith) (same_text-eq xs ys (ground arith))

same_text_refl : (s : Text) → same_text s s ≡ true
unfolding same_text
same_text_refl [] = refl
same_text_refl (x ∷ xs) = ground (arith, same_text_refl xs)

any_same-none : (t : Text) (out : List Text) → any_same t out ≡ false → All (λ x. x ≢ t) out
unfolding any_same
any_same-none t [] h = tt
any_same-none t (x ∷ xs) h = elim (Bool-cases (same_text x t)) [
  | inl e ↦ absurd (true≢false (rw e at h))
  | inr e ↦ (
    λ same. true≢false (sym (same_text_refl t) ∙ ap (λ y. same_text y t) (sym same) ∙ e),
    any_same-none t xs (rw e at h),
  )
]

none-any_same : (t : Text) (out : List Text) → All (λ x. x ≢ t) out → any_same t out ≡ false
unfolding any_same
none-any_same t [] h = refl
none-any_same t (x ∷ xs) h = elim (Bool-cases (same_text x t)) [
  | inl e ↦ absurd (h.0 (same_text-eq x t e))
  | inr e ↦ rw e (none-any_same t xs h.1)
]

Result-cases : {E A : Type 0} (r : Result E A) → ((e : E) × (r ≡ err e)) ⊎ ((a : A) × (r ≡ ok a))
Result-cases (ok a) = inr (a, refl)
Result-cases (err e) = inl (e, refl)

abbrev IsTag : Text → Type 0
IsTag s = Spelled is_tag_char 32 s

collected :
    (out inputs res : List Text)
    → collect_tags out inputs ≡ ok res
    → (res ≡ out ++ inputs) × All IsTag inputs × Fresh out inputs
unfolding collect_tags
collected out [] res h = (ap (value_or out) (sym h) ∙ sym (append-nil out), tt, tt)
collected out (raw ∷ inputs) res h = elim (Result-cases (validate_tag raw)) [
  | inl (e, x) ↦ absurd (err_ok e res (rw x at h))
  | inr (t, x) ↦
      let (same, spelled) = (validate_tag_iff raw t).0 x in
      elim (Bool-cases (any_same t out)) [
        | inl y ↦ absurd (err_ok (duplicate tag t) res (rw (x, y) at h))
        | inr y ↦
            let (all, tagged, fresh) = collected (out ++ t ∷ []) inputs res (rw (x, y) at h) in
            (
              all ∙ append_assoc out (t ∷ []) inputs ∙ ap (λ z. out ++ z ∷ inputs) same,
              (spelled, tagged),
              (
                subst (λ z. All (λ x. x ≢ z) out) same (any_same-none t out y),
                subst (λ z. Fresh (out ++ z ∷ []) inputs) same fresh,
              ),
            )
      ]
]

collects :
    (out inputs : List Text)
    → All IsTag inputs
    → Fresh out inputs
    → collect_tags out inputs ≡ ok (out ++ inputs)
unfolding collect_tags
collects out [] a f = ap (λ z. ok z) (sym (append-nil out))
collects out (raw ∷ inputs) a f =
    rw ((validate_tag_iff raw raw).1 (refl, a.0), none-any_same raw out f.0)
      (collects (out ++ raw ∷ []) inputs a.1 f.1
        ∙ ap (λ z. ok z) (append_assoc out (raw ∷ []) inputs))

few_tags : (n : ℕ) → ltb max_tags n ≡ false → n ≤ max_tags
few_tags n h = ground arith

tags_few : (n : ℕ) → n ≤ max_tags → ltb max_tags n ≡ false
tags_few n h = ground arith

-- A list of tags is accepted, as it is, exactly when it has at most 32 tags, each has 1 to 32 characters of
-- a tag, and no tag stands twice.
pub validate_tags_iff :
    (inputs out : List Text)
    → (validate_tags inputs ≡ ok out) ↔ (
        (out ≡ inputs)
        × (length inputs ≤ max_tags)
        × All (Spelled is_tag_char 32) inputs
        × Fresh [] inputs)
unfolding validate_tags
validate_tags_iff inputs out = (
  λ h. elim (Bool-cases (ltb max_tags (length inputs))) [
    | inl e ↦ absurd (err_ok _ out (rw e at h))
    | inr e ↦
        let (same, all, fresh) = collected [] inputs out (rw e at h) in
        (same, few_tags (length inputs) e, all, fresh)
  ],
  λ (same, few, all, fresh).
      rw (tags_few (length inputs) few) (collects [] inputs all fresh ∙ ap (λ z. ok z) (sym same)),
)
