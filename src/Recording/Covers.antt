-- ===== src/Recording/Covers.antt =====
-- Which sequence numbers the rows of a recording account for, and that each step of the task in
-- crates/relayterm-terminal/src/recording.rs keeps account of them.
use relay_term.Prelude.{
  ℕ, ◌^◌, ◌≤◌, ◌<◌, ◌≡◌, refl, ◌⊎◌, inl, inr, Bool-cases, true, ◌&&◌, Option, none, some, List, [],
  ◌∷◌, arith, lt→ltb, length,
}
use relay_term.Recording.{
  PendingGap, MarkerPayload, empty_object, given, gap_range, close_reason, Row, chunk, marker,
  MarkerRow, Attempt, Accepts, attempt, write_marker, write_replay_gap, fits_i64, ChunkBatch,
  storable, chunk_of, append_chunk, flush_chunk, TaskState,
}

abbrev pub InRange : ℕ → ℕ → ℕ → Type 0
InRange s from to = (from ≤ s) × (s ≤ to)

-- A gap marker stands for its range.
abbrev pub InPayload : ℕ → MarkerPayload → Type 0
InPayload s empty_object = ⊥
InPayload s (given json) = ⊥
InPayload s (gap_range from to reason) = InRange s from to
InPayload s (close_reason r) = ⊥

abbrev pub InRow : ℕ → Row → Type 0
InRow s (chunk c) = InRange s c.seq_start c.seq_end
InRow s (marker m) = InPayload s m.payload

-- A stored row accounts for the number.
abbrev pub Covered : ℕ → List Attempt → Type 0
Covered s [] = ⊥
Covered s (a ∷ log) = ((a.stored ≡ true) × InRow s a.row) ⊎ Covered s log

abbrev pub InBatch : ℕ → Option ChunkBatch → Type 0
InBatch s none = ⊥
InBatch s (some b) = InRange s b.seq_start b.seq_end

abbrev pub InGap : ℕ → Option PendingGap → Type 0
InGap s none = ⊥
InGap s (some g) = InRange s g.from_seq g.to_seq

-- The number is in the open batch or in a stored row.
abbrev pub Held : ℕ → TaskState → Type 0
Held s t = InBatch s t.batch ⊎ Covered s t.log

-- The open batch has bytes, no more than the limit, and ends at a number that has been recorded.
abbrev pub BatchOk : ℕ → ℕ → Option ChunkBatch → Type 0
BatchOk limit last none = Unit {0}
BatchOk limit last (some b) =
    (0 < length b.payload)
    × (length b.payload ≤ limit)
    × (b.seq_start ≤ b.seq_end)
    × (b.seq_end ≤ last)

-- The repository stores every marker. Chunks it may refuse.
abbrev pub StoresMarkers : Accepts → Type 0
StoresMarkers accepts = (log : List Attempt) (m : MarkerRow) → accepts log (marker m) ≡ true

pub BatchOk-later :
    (limit last later : ℕ) (o : Option ChunkBatch)
    → last ≤ later
    → BatchOk limit last o
    → BatchOk limit later o
BatchOk-later limit last later none le h = tt
BatchOk-later limit last later (some b) le h = let (a, b, c, d) = h in (a, b, c, omega arith)

pub write_replay_gap-keeps :
    (accepts : Accepts) (g : PendingGap) (s : ℕ) (log : List Attempt)
    → Covered s log
    → Covered s (write_replay_gap accepts g log)
unfolding write_marker attempt write_replay_gap
write_replay_gap-keeps accepts g s log h =
    elim (Bool-cases (fits_i64 g.from_seq && fits_i64 g.to_seq)) [
      | inl e ↦ rw (e, write_replay_gap) (inr h)
      | inr e ↦ rw (e, write_replay_gap) h
    ]

pub storable_lem :
    (limit last : ℕ) (b : ChunkBatch)
    → limit < 2 ^ 31
    → last < 2 ^ 63
    → BatchOk limit last (some b)
    → storable b ≡ true
unfolding storable fits_i64
storable_lem limit last b c w ok = let (p, q, r, e) = ok in ground arith

module _ (accepts : Accepts) (markers : StoresMarkers accepts) where
  pub write_replay_gap-covers :
      (g : PendingGap) (s : ℕ) (log : List Attempt)
      → InRange s g.from_seq g.to_seq
      → g.to_seq < 2 ^ 63
      → Covered s (write_replay_gap accepts g log)
  unfolding write_marker attempt fits_i64 write_replay_gap
  write_replay_gap-covers g s log h w =
      rw
        (
          lt→ltb g.from_seq (2 ^ 63) (omega (arith, h.0, h.1)),
          lt→ltb g.to_seq (2 ^ 63) w,
          write_replay_gap,
        )
        (inl (markers log _, h))

  append_chunk-covers :
      (b : ChunkBatch) (s : ℕ) (log : List Attempt)
      → b.seq_end < 2 ^ 63
      → InRange s b.seq_start b.seq_end ⊎ Covered s log
      → Covered s (append_chunk accepts b log)
  unfolding attempt append_chunk
  append_chunk-covers b s log w h = elim (Bool-cases (accepts log (chunk_of b))) [
    | inl e ↦ rw (e, append_chunk) (elim h [ inl r ↦ inl (refl, r) | inr c ↦ inr c ])
    | inr e ↦
        rw (e, append_chunk)
          (elim h [
            | inl r ↦ write_replay_gap-covers _ s _ r w
            | inr c ↦ write_replay_gap-keeps accepts _ s _ (inr c)
          ])
  ]

  -- A flush loses nothing.
  pub flush_chunk-covers :
      (limit last : ℕ) (o : Option ChunkBatch) (s : ℕ) (log : List Attempt)
      → limit < 2 ^ 31
      → last < 2 ^ 63
      → BatchOk limit last o
      → InBatch s o ⊎ Covered s log
      → Covered s (flush_chunk accepts o log)
  unfolding flush_chunk
  flush_chunk-covers limit last none s log c w ok (inl h) = absurd h
  flush_chunk-covers limit last none s log c w ok (inr h) = h
  flush_chunk-covers limit last (some b) s log c w ok h =
      let (p, q, r, e) = ok in
      rw (storable_lem limit last b (omega arith) w ok, flush_chunk)
        (append_chunk-covers b s log (omega arith) h)
