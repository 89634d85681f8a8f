-- ===== src/Replay.antt =====
-- The bounded replay buffer of one session's output, crates/relayterm-terminal/src/replay.rs.
-- A byte is a number that is only moved; `usize` and `u64` are 64 bits wide.
pub mod Evict
pub mod Bounds
pub mod Resume
mod Tests
use relay_term.Prelude.{
  ℕ, ◌+◌, ◌-◌, ◌%◌, ◌^◌, Bool, true, false, ◌&&◌, ◌||◌, Option, none, some, List, [], ◌∷◌, ◌++◌,
  ltb, leb, if◌then◌else◌, length, keep_if, saturating_add,
}

pub record OutputFrame : Type 0 where
  pub seq : ℕ
  pub bytes : List ℕ

-- A replay query's answer: the frames to send again and the newest sequence number.
pub record ReplayRange : Type 0 where
  pub frames : List OutputFrame
  pub latest_seq : ℕ

pub record ReplayWindowLost : Type 0 where
  pub requested : ℕ
  pub oldest_available : Option ℕ
  pub latest : ℕ

pub data Replayed : Type 0 where
  ok : ReplayRange → Replayed
  lost : ReplayWindowLost → Replayed

pub record ReplayBufferConfig : Type 0 where
  pub max_frames : ℕ
  pub max_bytes : ℕ

abbrev pub default_config : ReplayBufferConfig
default_config = record { max_frames = 1024; max_bytes = 2 ^ 20 }

-- `frames` is the deque, front (oldest) first.
pub record ReplayBuffer : Type 0 where
  pub config : ReplayBufferConfig
  pub frames : List OutputFrame
  pub bytes : ℕ
  pub latest_seq : ℕ

unfoldable pub new : ReplayBufferConfig → ReplayBuffer
new config = record { config = config; frames = []; bytes = 0; latest_seq = 0 }

-- The condition of the eviction loop.
unfoldable pub over_limit : ReplayBufferConfig → ℕ → List OutputFrame → Bool
over_limit c bytes frames = ltb c.max_frames (length frames) || ltb c.max_bytes bytes

-- The condition of its `break`.
unfoldable pub is_last : List OutputFrame → Bool
is_last frames = leb (length frames) 1

-- The eviction loop of `push`, with its `break` at one frame. The pair is `bytes` and `frames`.
unfoldable pub evict : ReplayBufferConfig → ℕ → List OutputFrame → ℕ × List OutputFrame
evict c bytes [] = (bytes, [])
evict c bytes (dropped ∷ rest) = elim (over_limit c bytes (dropped ∷ rest)) [
  | false ↦ (bytes, dropped ∷ rest)
  | true ↦ elim (is_last (dropped ∷ rest)) [
    | true ↦ (bytes, dropped ∷ rest)
    | false ↦ evict c (bytes - length dropped.bytes) rest
  ]
]

-- `push` without its `debug_assert!`, which the theorems take as a hypothesis.
unfoldable pub push : ReplayBuffer → OutputFrame → ReplayBuffer
push b frame =
    let (bytes, frames) =
      evict b.config (saturating_add b.bytes (length frame.bytes)) (b.frames ++ frame ∷ []) in
    record b { frames = frames; bytes = bytes; latest_seq = frame.seq }

-- `last_seen_seq.unwrap_or(0)`.
abbrev pub bookmark_of : Option ℕ → ℕ
bookmark_of none = 0
bookmark_of (some n) = n

-- The frames after the bookmark, or the loss of the window; the deque is split into its front and
-- the rest.
unfoldable pub query : ℕ → ℕ → List OutputFrame → Replayed
query latest bookmark [] = ok (record { frames = []; latest_seq = latest })
query latest bookmark (oldest ∷ rest) =
    if leb latest bookmark
    then ok (record { frames = []; latest_seq = latest })
    else if ltb 0 bookmark && ltb ((bookmark + 1) % 2 ^ 64) oldest.seq
    then lost (record { requested = bookmark; oldest_available = some oldest.seq; latest = latest })
    else ok
        (record { frames = keep_if (λ f. ltb bookmark f.seq) (oldest ∷ rest); latest_seq = latest })

unfoldable pub replay_since : ReplayBuffer → Option ℕ → Replayed
unfolding query
replay_since b last_seen_seq = query b.latest_seq (bookmark_of last_seen_seq) b.frames

-- The frames of a session in the order in which the forwarder pushes them.
unfoldable pub push_all : ReplayBuffer → List OutputFrame → ReplayBuffer
push_all b [] = b
push_all b (f ∷ fs) = push_all (push b f) fs
