-- ===== src/Corpus/Listing.antt =====
-- The reads: `list_eligible_for_retention`, `list_chunks`, `list_markers` and `get_metadata` of
-- crates/relayterm-db/src/repositories/terminal_recording.rs. Rows with equal sort keys come in the
-- order of the table, where the database may choose.
use relay_term.Prelude.{
  ℕ, min, max, Bool, not, ◌&&◌, ◌||◌, Option, none, some, List, [], ◌∷◌, map, if◌then◌else◌, ltb,
  leb, ◌==◌, keep_if, take, length,
}
use relay_term.Sessions.{TerminalSession}
use relay_term.Corpus.{
  TerminalRecordingChunk, TerminalRecordingMarker, Tables, M, fail, validation, select, i32_max,
  expired_at, chunks_of, markers_of,
}

-- `ORDER BY`: before every row that it does not come after.
unfoldable pub insert_by : {A : Type 0} → (A → A → Bool) → A → List A → List A
insert_by before x [] = x ∷ []
insert_by before x (y ∷ ys) =
    let rest = insert_by before x ys in if before x y then x ∷ y ∷ ys else y ∷ rest

unfoldable pub order_by : {A : Type 0} → (A → A → Bool) → List A → List A
order_by before [] = []
order_by before (x ∷ xs) = insert_by before x (order_by before xs)

-- `EXISTS` over the chunks or the markers.
unfoldable pub is_recorded : ℕ → Tables → Bool
is_recorded id t =
    not ((length (chunks_of id t.chunks) == 0) && (length (markers_of id t.markers) == 0))

-- The session and the time it was closed, when the sweep may purge it.
unfoldable pub candidate : ℕ → ℕ → Tables → ℕ → Option ℕ → List (ℕ × ℕ) → List (ℕ × ℕ)
candidate days now t id none rest = rest
candidate days now t id (some closed_at) rest =
    if is_recorded id t then (id, closed_at) ∷ rest else rest

unfoldable pub eligible : ℕ → ℕ → Tables → List (ℕ × TerminalSession) → List (ℕ × ℕ)
eligible days now t [] = []
eligible days now t ((id, row) ∷ rows) =
    candidate days now t id (expired_at days now row.closed_at) (eligible days now t rows)

abbrev pub closed_first : ℕ × ℕ → ℕ × ℕ → Bool
closed_first a b = leb a.1 b.1

unfoldable pub list_eligible_for_retention : ℕ → ℕ → ℕ → M (List ℕ)
list_eligible_for_retention days now limit =
    if ltb i32_max days
    then fail validation
    else select (λ t.
      map (λ c. c.0) (take (max limit 1) (order_by closed_first (eligible days now t t.sessions))))

abbrev list_limit_ceiling : ℕ
list_limit_ceiling = 1024

unfoldable pub clamp_limit : ℕ → ℕ
clamp_limit limit = min (max limit 1) list_limit_ceiling

unfoldable pub list_chunks : ℕ → ℕ → ℕ → M (List TerminalRecordingChunk)
list_chunks id from_seq limit = select (λ t. take (clamp_limit limit) (
    order_by (λ a b. leb a.seq_start b.seq_start)
      (keep_if (λ c. leb from_seq c.seq_start) (chunks_of id t.chunks))))

unfoldable pub list_markers : ℕ → ℕ → ℕ → M (List TerminalRecordingMarker)
list_markers id from_seq limit = select (λ t. take (clamp_limit limit) (
    order_by (λ a b. ltb a.seq b.seq || (a.seq == b.seq && leb a.created_at b.created_at))
      (keep_if (λ m. leb from_seq m.seq) (markers_of id t.markers))))
