-- ===== src/Replay/Tests.antt =====
-- Runs of the replay buffer, and its theorems at a session of four frames.
use relay_term.Prelude.{ℕ, ◌<◌, ◌≡◌, refl, inl, some, none, List, [], ◌∷◌, arith}
use relay_term.Replay.{
  OutputFrame, ReplayBuffer, ReplayBufferConfig, ok, lost, new, push, push_all, evict, over_limit,
  is_last, replay_since,
}
use relay_term.Replay.Bounds.{Inv, push-Inv}
use relay_term.Replay.Resume.{resume_complete, resume_lost, resume_fresh, newest_retained}

abbrev frame : ℕ → List ℕ → OutputFrame
frame seq bytes = record { seq = seq; bytes = bytes }

abbrev tiny : ReplayBufferConfig
tiny = record { max_frames = 2; max_bytes = 4 }

abbrev output : List OutputFrame
output = frame 1 (7 ∷ 7 ∷ []) ∷ frame 2 (8 ∷ []) ∷ frame 3 (9 ∷ 9 ∷ []) ∷ frame 4 (5 ∷ 5 ∷ []) ∷ []

abbrev full : ReplayBuffer
full = record {
  config = tiny;
  frames = frame 3 (9 ∷ 9 ∷ []) ∷ frame 4 (5 ∷ 5 ∷ []) ∷ [];
  bytes = 4;
  latest_seq = 4;
}

after_output : push_all (new tiny) output ≡ full
unfolding push_all push evict over_limit is_last new
after_output = refl

oversized_kept : (push full (frame 5 (1 ∷ 1 ∷ 1 ∷ 1 ∷ 1 ∷ []))).bytes ≡ 5
unfolding push evict over_limit is_last
oversized_kept = refl

full-Inv : Inv full
full-Inv = record { counted = refl; within = inl (omega arith); rising = omega arith }

push-Inv_example : Inv (push full (frame 5 (1 ∷ [])))
push-Inv_example = push-Inv full (frame 5 (1 ∷ [])) full-Inv (omega arith) (omega arith)

resume_complete_example :
    replay_since (push_all (new tiny) output) (some 3)
    ≡ ok (record { frames = frame 4 (5 ∷ 5 ∷ []) ∷ []; latest_seq = 4 })
unfolding push_all push evict over_limit is_last new
resume_complete_example = resume_complete tiny output 3 (omega arith) (omega arith) (omega arith)

resume_lost_example :
    replay_since (push_all (new tiny) output) (some 1)
    ≡ lost (record { requested = 1; oldest_available = some 3; latest = 4 })
unfolding push_all push evict over_limit is_last new
resume_lost_example =
    resume_lost tiny output 1 (omega arith) (omega arith) (omega arith) (omega arith)

resume_fresh_example :
    (replay_since (push_all (new tiny) output) none
      ≡ ok (record { frames = full.frames; latest_seq = 4 }))
    × (replay_since (push_all (new tiny) output) (some 0)
        ≡ ok (record { frames = full.frames; latest_seq = 4 }))
unfolding push_all push evict over_limit is_last new
resume_fresh_example = resume_fresh tiny output (omega arith) (omega arith)

newest_retained_example : 0 < 2
unfolding push_all push evict over_limit is_last new
newest_retained_example = newest_retained tiny output (omega arith) (omega arith)
