-- ===== src/Replay/Evict.antt =====
-- What the eviction loop of `ReplayBuffer::push` drops: no more than the limits ask for.
use relay_term.Prelude.{
  ℕ, ◌+◌, ◌-◌, ◌≤◌, ◌≡◌, refl, ap, subst, ◌⊎◌, inl, inr, true, false, List, [], ◌∷◌, ◌++◌, arith,
  length, Bool-cases,
}
use relay_term.Replay.{OutputFrame, ReplayBufferConfig, over_limit, is_last, evict}

abbrev pub total_bytes : List OutputFrame → ℕ
total_bytes [] = 0
total_bytes (f ∷ fs) = length f.bytes + total_bytes fs

pub total_bytes-append :
    (xs ys : List OutputFrame) → total_bytes (xs ++ ys) ≡ total_bytes xs + total_bytes ys
total_bytes-append [] ys = omega arith
total_bytes-append (x ∷ xs) ys = omega (arith, total_bytes-append xs ys)

-- Both limits of the configuration are met.
abbrev pub Fits : ReplayBufferConfig → List OutputFrame → Type 0
Fits c fs = (length fs ≤ c.max_frames) × (total_bytes fs ≤ c.max_bytes)

-- With any of the dropped frames back in front of it, `kept` would break a limit.
abbrev pub Needed : ReplayBufferConfig → List OutputFrame → List OutputFrame → Type 0
Needed c [] kept = Unit {0}
Needed c (f ∷ dropped) kept = (¬ Fits c (f ∷ dropped ++ kept)) × Needed c dropped kept

-- `kept` is what is left of `all` after dropping whole frames from the front, only as needed.
pub record Trimmed (c : ReplayBufferConfig) (all kept : List OutputFrame) : Type 0 where
  pub dropped : List OutputFrame
  pub split : all ≡ dropped ++ kept
  pub within : Fits c kept ⊎ (length kept ≤ 1)
  pub needed : Needed c dropped kept

over-not-Fits :
    (c : ReplayBufferConfig) (fs : List OutputFrame)
    → over_limit c (total_bytes fs) fs ≡ true
    → ¬ Fits c fs
unfolding over_limit
over-not-Fits c fs h k = ground arith

under-Fits :
    (c : ReplayBufferConfig) (fs : List OutputFrame)
    → over_limit c (total_bytes fs) fs ≡ false
    → Fits c fs
unfolding over_limit
under-Fits c fs h = ground arith

is_last-le : (fs : List OutputFrame) → is_last fs ≡ true → length fs ≤ 1
unfolding is_last
is_last-le fs h = ground arith

is_last-one : (f : OutputFrame) → is_last (f ∷ []) ≡ true
unfolding is_last
is_last-one f = refl

stop :
    (c : ReplayBufferConfig) (fs : List OutputFrame) → Fits c fs ⊎ (length fs ≤ 1) → Trimmed c fs fs
stop c fs w = record { dropped = []; split = refl; within = w; needed = tt }

drop_one :
    (c : ReplayBufferConfig) (f : OutputFrame) (fs kept : List OutputFrame)
    → ¬ Fits c (f ∷ fs)
    → Trimmed c fs kept
    → Trimmed c (f ∷ fs) kept
drop_one c f fs kept over t = record {
  dropped = f ∷ t.dropped;
  split = ap (◌∷◌ f) t.split;
  within = t.within;
  needed = (subst (λ l. ¬ Fits c (f ∷ l)) t.split over, t.needed);
}

-- The loop drops frames from the front, only while a limit is broken and two frames are left, and
-- `bytes` stays the sum of the frames' lengths.
pub evict-Trimmed :
    (c : ReplayBufferConfig) (bytes : ℕ) (fs : List OutputFrame)
    → bytes ≡ total_bytes fs
    → Trimmed c fs (evict c bytes fs).1 × ((evict c bytes fs).0 ≡ total_bytes (evict c bytes fs).1)
unfolding evict
evict-Trimmed c bytes [] h = (stop c [] (inr (omega arith)), h)
evict-Trimmed c bytes (f ∷ fs) h = elim (Bool-cases (over_limit c bytes (f ∷ fs))) [
  | inl over ↦ elim (Bool-cases (is_last (f ∷ fs))) [
    | inl one ↦ rw (over, evict) (rw (one, evict) (stop c (f ∷ fs) (inr (is_last-le _ one)), h))
    | inr more ↦
        rw (over, evict)
          (rw (more, evict)
            (
              drop_one c f fs _ (over-not-Fits c (f ∷ fs) (rw h at over))
                  (evict-Trimmed c (bytes - length f.bytes) fs (omega arith)).0,
              (evict-Trimmed c (bytes - length f.bytes) fs (omega arith)).1,
            ))
  ]
  | inr under ↦ rw (under, evict) (stop c (f ∷ fs) (inl (under-Fits c (f ∷ fs) (rw h at under))), h)
]

-- Whatever the counter says, the loop leaves a suffix that ends in the newest frame.
pub evict_keeps_newest :
    (c : ReplayBufferConfig) (bytes : ℕ) (xs : List OutputFrame) (f : OutputFrame)
    → (ds : List OutputFrame) × (ys : List OutputFrame) × (xs ≡ ds ++ ys)
      × ((evict c bytes (xs ++ f ∷ [])).1 ≡ ys ++ f ∷ [])
unfolding evict
evict_keeps_newest c bytes [] f = ([], [], refl, only)
  where
    only : (evict c bytes (f ∷ [])).1 ≡ f ∷ []
    only = elim (Bool-cases (over_limit c bytes (f ∷ []))) [
      | inl over ↦ rw (over, evict) (rw (is_last-one f, evict) refl)
      | inr under ↦ rw (under, evict) refl
    ]
evict_keeps_newest c bytes (x ∷ xs) f = elim (Bool-cases (over_limit c bytes (x ∷ xs ++ f ∷ []))) [
  | inl over ↦ elim (Bool-cases (is_last (x ∷ xs ++ f ∷ []))) [
    | inl one ↦ ([], x ∷ xs, refl, rw (over, evict) (rw (one, evict) refl))
    | inr more ↦
        let (ds, ys, e, h) = evict_keeps_newest c (bytes - length x.bytes) xs f in
        (x ∷ ds, ys, ap (◌∷◌ x) e, rw (over, evict) (rw (more, evict) h))
  ]
  | inr under ↦ ([], x ∷ xs, refl, rw (under, evict) refl)
]
