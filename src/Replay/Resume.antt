-- ===== src/Replay/Resume.antt =====
-- What a client that comes back gets from `ReplayBuffer::replay_since`, against the whole output
-- of the session since its start.
use relay_term.Prelude.{
  ℕ, suc, ◌+◌, ◌-◌, ◌≤◌, ◌<◌, ◌^◌, ◌≡◌, refl, subst, ◌∙◌, ap, ◌⊎◌, inl, inr, none, some, List, [],
  ◌∷◌, ◌++◌, arith, ltb, length, length-append, keep_if, append_assoc, append-nil, saturating_add,
  List-cases,
}
use native.Mathlib.Numerals.{add-one}
use relay_term.Replay.{
  OutputFrame, ReplayBuffer, ReplayBufferConfig, ok, lost, new, push, push_all, query, replay_since,
}
use relay_term.Replay.Evict.{evict_keeps_newest}

-- The frames carry the numbers `k`, `k + 1`, ….
abbrev pub Consecutive : ℕ → List OutputFrame → Type 0
Consecutive k [] = Unit {0}
Consecutive k (f ∷ fs) = (f.seq ≡ k) × Consecutive (suc k) fs

-- `b` is what the output `seen` left in the buffer.
record History (b : ReplayBuffer) (seen : List OutputFrame) : Type 0 where
  evicted : List OutputFrame
  split : seen ≡ evicted ++ b.frames
  latest : b.latest_seq ≡ length seen
  alive : (length seen ≡ 0) ⊎ (0 < length b.frames)

regroup :
    (seen ev fr ds ys zs : List OutputFrame) (f : OutputFrame)
    → seen ≡ ev ++ fr
    → fr ≡ ds ++ ys
    → zs ≡ ys ++ f ∷ []
    → seen ++ f ∷ [] ≡ (ev ++ ds) ++ zs
regroup seen ev fr ds ys zs f p q r = rw (p, q, r) (simp append_assoc)

push-History :
    (b : ReplayBuffer) (seen : List OutputFrame) (f : OutputFrame)
    → History b seen
    → f.seq ≡ suc (length seen)
    → History (push b f) (seen ++ f ∷ [])
unfolding push
push-History b seen f h e =
    let total = saturating_add b.bytes (length f.bytes) in
    let (ds, ys, cut, kept) = evict_keeps_newest b.config total b.frames f in
    record {
      evicted = h.evicted ++ ds;
      split = regroup _ _ _ ds ys _ f h.split cut kept;
      latest = omega (arith, length-append seen (f ∷ []));
      alive = inr (omega (arith, ap length kept, length-append ys (f ∷ [])));
    }

push_all-History :
    (b : ReplayBuffer) (seen fs : List OutputFrame)
    → History b seen
    → Consecutive (suc (length seen)) fs
    → History (push_all b fs) (seen ++ fs)
unfolding push_all
push_all-History b seen [] h c = rw append-nil h
push_all-History b seen (f ∷ fs) h c = rw (← append_assoc seen (f ∷ []) fs) (
    push_all-History (push b f) (seen ++ f ∷ []) fs (push-History b seen f h c.0)
      (rw (length-append seen (f ∷ []), add-one) c.1))

new-History : (c : ReplayBufferConfig) → History (new c) []
unfolding new
new-History c = record { evicted = []; split = refl; latest = refl; alive = inl refl }

-- The buffer after the whole output `fs` of a session.
abbrev pub buffer_of : ReplayBufferConfig → List OutputFrame → ReplayBuffer
buffer_of c fs = push_all (new c) fs

-- How many frames of `fs` the buffer no longer holds.
abbrev pub evicted_of : ReplayBufferConfig → List OutputFrame → ℕ
evicted_of c fs = length fs - length (buffer_of c fs).frames

buffer_of-History :
    (c : ReplayBufferConfig) (fs : List OutputFrame)
    → Consecutive 1 fs
    → History (buffer_of c fs) fs
buffer_of-History c fs h = push_all-History (new c) [] fs (new-History c) h

front_seq :
    (k : ℕ) (xs : List OutputFrame) (f : OutputFrame) (ys : List OutputFrame)
    → Consecutive k (xs ++ f ∷ ys)
    → f.seq ≡ k + length xs
front_seq k [] f ys c = omega arith
front_seq k (x ∷ xs) f ys c = omega (arith, front_seq (suc k) xs f ys c.1)

keep_if-skip :
    (n k : ℕ) (xs ys : List OutputFrame)
    → Consecutive k (xs ++ ys)
    → k + length xs ≤ suc n
    → keep_if (λ f. ltb n f.seq) (xs ++ ys) ≡ keep_if (λ f. ltb n f.seq) ys
keep_if-skip n k [] ys c h = refl
keep_if-skip n k (x ∷ xs) ys c h = ground (arith, keep_if-skip n (suc k) xs ys c.1)

keep_if_all :
    (k : ℕ) (xs : List OutputFrame) → Consecutive (suc k) xs → keep_if (λ f. ltb 0 f.seq) xs ≡ xs
keep_if_all k [] c = refl
keep_if_all k (x ∷ xs) c = ground (arith, keep_if_all (suc k) xs c.1)

-- All that came after the bookmark `n`.
abbrev pub missed : ℕ → List OutputFrame → List OutputFrame
missed n = keep_if (λ f. ltb n f.seq)

missed_none :
    (n k : ℕ) (xs : List OutputFrame) → Consecutive k xs → k + length xs ≤ suc n → missed n xs ≡ []
missed_none n k [] c h = refl
missed_none n k (x ∷ xs) c h = ground (arith, missed_none n (suc k) xs c.1)

query_resumes :
    (n latest : ℕ) (ev frames : List OutputFrame)
    → latest ≡ length (ev ++ frames)
    → Consecutive 1 (ev ++ frames)
    → latest < 2 ^ 64
    → length ev ≤ n
    → query latest n frames ≡ ok (record { frames = missed n (ev ++ frames); latest_seq = latest })
unfolding query
query_resumes n latest ev [] e c w h =
    rw (missed_none n 1 (ev ++ []) c (omega (arith, length-append ev [])))
query_resumes n latest ev (oldest ∷ rest) e c w h = ground (
  arith,
  front_seq 1 ev oldest rest c,
  keep_if-skip n 1 ev (oldest ∷ rest) c,
  missed_none n 1 (ev ++ oldest ∷ rest) c,
)

query_loses :
    (n latest : ℕ) (ev : List OutputFrame) (oldest : OutputFrame) (rest : List OutputFrame)
    → latest ≡ length (ev ++ oldest ∷ rest)
    → Consecutive 1 (ev ++ oldest ∷ rest)
    → latest < 2 ^ 64
    → 0 < n
    → n < length ev
    → query latest n (oldest ∷ rest)
      ≡ lost (record { requested = n; oldest_available = some (length ev + 1); latest = latest })
unfolding query
query_loses n latest ev oldest rest e c w p h =
    ground (arith, front_seq 1 ev oldest rest c, length-append ev (oldest ∷ rest))

keep_if_tail :
    (k : ℕ) (xs ys : List OutputFrame)
    → Consecutive (suc k) (xs ++ ys)
    → keep_if (λ f. ltb 0 f.seq) ys ≡ ys
keep_if_tail k [] ys c = keep_if_all k ys c
keep_if_tail k (x ∷ xs) ys c = keep_if_tail (suc k) xs ys c.1

query_fresh :
    (latest : ℕ) (ev frames : List OutputFrame)
    → latest ≡ length (ev ++ frames)
    → Consecutive 1 (ev ++ frames)
    → query latest 0 frames ≡ ok (record { frames = frames; latest_seq = latest })
unfolding query
query_fresh latest ev [] e c = refl
query_fresh latest ev (oldest ∷ rest) e c =
    ground (arith, length-append ev (oldest ∷ rest), keep_if_tail 0 ev (oldest ∷ rest) c)

evicted-length :
    {b : ReplayBuffer} {seen : List OutputFrame} (h : History b seen)
    → length seen - length b.frames ≡ length h.evicted
evicted-length {b} h = omega (arith, ap length h.split, length-append h.evicted b.frames)

module _ (b : ReplayBuffer) (seen : List OutputFrame) (h : History b seen) where
  module _ (c : Consecutive 1 seen) (w : length seen < 2 ^ 64) where
    resumes :
        (n : ℕ)
        → length seen - length b.frames ≤ n
        → query b.latest_seq n b.frames
          ≡ ok (record { frames = missed n seen; latest_seq = length seen })
    resumes n le = cc (
      query_resumes n b.latest_seq h.evicted b.frames (h.latest ∙ ap length h.split)
          (subst (Consecutive 1) h.split c) (omega (arith, h.latest))
          (omega (arith, evicted-length h)),
      h.split,
      h.latest,
    )

    loses :
        (n : ℕ) (oldest : OutputFrame) (rest : List OutputFrame)
        → b.frames ≡ oldest ∷ rest
        → 0 < n
        → n < length seen - length b.frames
        → query b.latest_seq n b.frames
          ≡ lost (record {
            requested = n;
            oldest_available = some (length seen - length b.frames + 1);
            latest = length seen;
          })
    loses n oldest rest e p lt = cc (
      query_loses n b.latest_seq h.evicted oldest rest (h.latest ∙ ap length cut)
          (subst (Consecutive 1) cut c) (omega (arith, h.latest)) p
          (omega (arith, evicted-length h)),
      e,
      evicted-length h,
      h.latest,
    )
      where
        cut : seen ≡ h.evicted ++ oldest ∷ rest
        cut = h.split ∙ ap (λ l. h.evicted ++ l) e

    fresh :
        query b.latest_seq 0 b.frames ≡ ok (record { frames = b.frames; latest_seq = length seen })
    fresh = cc (
      query_fresh b.latest_seq h.evicted b.frames (h.latest ∙ ap length h.split)
          (subst (Consecutive 1) h.split c),
      h.latest,
    )

-- Of an output numbered 1, 2, …, of fewer than 2^64 frames, a bookmark that is not before the
-- evicted frames gets all that came after it, in order, and the newest number.
pub resume_complete :
    (c : ReplayBufferConfig) (fs : List OutputFrame) (n : ℕ)
    → Consecutive 1 fs
    → length fs < 2 ^ 64
    → evicted_of c fs ≤ n
    → replay_since (buffer_of c fs) (some n)
      ≡ ok (record { frames = missed n fs; latest_seq = length fs })
unfolding replay_since
resume_complete c fs n k w le = resumes _ fs (buffer_of-History c fs k) k w n le

-- Of an output numbered 1, 2, …, of fewer than 2^64 frames, a bookmark that is not 0 and is before
-- the last evicted frame is told that the window is lost, and from which number on output is still
-- there.
pub resume_lost :
    (c : ReplayBufferConfig) (fs : List OutputFrame) (n : ℕ)
    → Consecutive 1 fs
    → length fs < 2 ^ 64
    → 0 < n
    → n < evicted_of c fs
    → replay_since (buffer_of c fs) (some n)
      ≡ lost (record {
        requested = n;
        oldest_available = some (evicted_of c fs + 1);
        latest = length fs;
      })
unfolding replay_since
resume_lost c fs n k w p lt = elim (List-cases (buffer_of c fs).frames) [
  | inl e ↦ absurd (omega (arith, (buffer_of-History c fs k).alive, ap length e))
  | inr (oldest, rest, e) ↦ loses _ fs (buffer_of-History c fs k) k w n oldest rest e p lt
]

-- Of an output numbered 1, 2, …, of fewer than 2^64 frames, a client with no bookmark, or with
-- bookmark 0, gets all that is retained, and never loses a window.
pub resume_fresh :
    (c : ReplayBufferConfig) (fs : List OutputFrame)
    → Consecutive 1 fs
    → length fs < 2 ^ 64
    → (replay_since (buffer_of c fs) none
        ≡ ok (record { frames = (buffer_of c fs).frames; latest_seq = length fs }))
      × (replay_since (buffer_of c fs) (some 0)
          ≡ ok (record { frames = (buffer_of c fs).frames; latest_seq = length fs }))
unfolding replay_since
resume_fresh c fs k w = let h = buffer_of-History c fs k in (fresh _ fs h k w, fresh _ fs h k w)

-- A session that has sent output always has its newest frame to replay.
pub newest_retained :
    (c : ReplayBufferConfig) (fs : List OutputFrame)
    → Consecutive 1 fs
    → 0 < length fs
    → 0 < length (buffer_of c fs).frames
newest_retained c fs k p = omega (arith, (buffer_of-History c fs k).alive)
