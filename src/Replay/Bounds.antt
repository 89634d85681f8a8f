-- ===== src/Replay/Bounds.antt =====
-- `ReplayBuffer::push` keeps the buffer within its limits, and its counters exact.
use relay_term.Prelude.{
  ℕ, ◌+◌, ◌≤◌, ◌<◌, ◌≡◌, refl, subst, ◌⊎◌, inr, List, [], ◌∷◌, ◌++◌, arith, length, saturating_add,
  word_max,
}
use relay_term.Replay.{OutputFrame, ReplayBuffer, ReplayBufferConfig, new, push}
use relay_term.Replay.Evict.{Fits, Trimmed, total_bytes, total_bytes-append, evict-Trimmed}

-- The sequence numbers rise along the list and stay at most `latest`.
abbrev pub Rising : List OutputFrame → ℕ → Type 0
Rising [] latest = Unit {0}
Rising (f ∷ []) latest = f.seq ≤ latest
Rising (f ∷ g ∷ fs) latest = (f.seq < g.seq) × Rising (g ∷ fs) latest

pub record Inv (b : ReplayBuffer) : Type 0 where
  pub counted : b.bytes ≡ total_bytes b.frames
  pub within : Fits b.config b.frames ⊎ (length b.frames ≤ 1)
  pub rising : Rising b.frames b.latest_seq

-- A new buffer satisfies the invariant.
pub new-Inv : (c : ReplayBufferConfig) → Inv (new c)
unfolding new
new-Inv c = record { counted = refl; within = inr (omega arith); rising = tt }

Rising-snoc :
    (fs : List OutputFrame) (f : OutputFrame) (latest : ℕ)
    → Rising fs latest
    → latest < f.seq
    → Rising (fs ++ f ∷ []) f.seq
Rising-snoc [] f latest h lt = omega arith
Rising-snoc (x ∷ []) f latest h lt = omega arith
Rising-snoc (x ∷ y ∷ fs) f latest h lt = (h.0, Rising-snoc (y ∷ fs) f latest h.1 lt)

Rising-drop : (ds fs : List OutputFrame) (latest : ℕ) → Rising (ds ++ fs) latest → Rising fs latest
Rising-drop [] fs latest h = h
Rising-drop (d ∷ []) [] latest h = tt
Rising-drop (d ∷ []) (f ∷ fs) latest h = h.1
Rising-drop (d ∷ e ∷ ds) fs latest h = Rising-drop (e ∷ ds) fs latest h.1

added :
    (b : ReplayBuffer) (f : OutputFrame)
    → b.bytes ≡ total_bytes b.frames
    → b.bytes + length f.bytes ≤ word_max
    → saturating_add b.bytes (length f.bytes) ≡ total_bytes (b.frames ++ f ∷ [])
added b f h room = omega (arith, total_bytes-append b.frames (f ∷ []))

-- A push drops frames from the front only as the limits need it.
pub push-Trimmed :
    (b : ReplayBuffer) (f : OutputFrame)
    → Inv b
    → b.bytes + length f.bytes ≤ word_max
    → Trimmed b.config (b.frames ++ f ∷ []) (push b f).frames
unfolding push
push-Trimmed b f v room = (evict-Trimmed b.config _ _ (added b f v.counted room)).0

-- A push keeps the invariant of the buffer: `bytes` is the sum of the lengths of the frames, the frames
-- are within the caps or there is at most one, and their numbers rise up to `latest_seq`. The new number is
-- above `latest_seq`, and `bytes` with the new frame does not overflow the word.
pub push-Inv :
    (b : ReplayBuffer) (f : OutputFrame)
    → Inv b
    → b.latest_seq < f.seq
    → b.bytes + length f.bytes ≤ word_max
    → Inv (push b f)
unfolding push
push-Inv b f v lt room =
    let (t, counted) = evict-Trimmed b.config _ _ (added b f v.counted room) in
    record {
      counted = counted;
      within = t.within;
      rising =
          Rising-drop t.dropped _ f.seq
            (subst (λ l. Rising l f.seq) t.split (Rising-snoc b.frames f b.latest_seq v.rising lt));
    }
