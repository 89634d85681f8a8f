-- ===== src/Manager/Replayed.antt =====
-- The output of a live PTY through the manager: the forwarder numbers it, and a client that comes back
-- asks for what it missed, crates/relayterm-terminal/src/manager.rs.
use relay_term.Prelude.{
  ℕ, suc, ◌+◌, ◌^◌, ◌≤◌, ◌<◌, ◌≡◌, refl, ap, subst, ◌∙◌, Option, some, List, [], ◌∷◌, arith, length,
  ℕ_discrete,
}
use relay_term.Prelude.Assoc.{get, get-modify_self}
use mathlib.Core.Option
use relay_term.Replay.{
  OutputFrame, ReplayBuffer, new, push, push_all, default_config, replay_since, ok,
}
use relay_term.Replay.Resume.{Consecutive, missed, evicted_of, resume_complete}
use relay_term.Manager.{Manager, LiveRuntime, RuntimeEntry, runtime_view, live_of}
use relay_term.Manager.Pty.{take_output, on_live, stamp, forward, replay_live, replay_session}

-- The frames that the forwarder makes of its chunks, from the number `k` on.
abbrev pub frames_from : ℕ → List (List ℕ) → List OutputFrame
frames_from k [] = []
frames_from k (bytes ∷ rest) = record { seq = k; bytes = bytes } ∷ frames_from (suc k) rest

unfoldable pub forward_all : ℕ → List (List ℕ) → Manager → Manager
forward_all id [] m = m
forward_all id (bytes ∷ rest) m = forward_all id rest (forward id bytes m)

pub frames_from-Consecutive :
    (k : ℕ) (chunks : List (List ℕ)) → Consecutive k (frames_from k chunks)
frames_from-Consecutive k [] = tt
frames_from-Consecutive k (bytes ∷ rest) = (refl, frames_from-Consecutive (suc k) rest)

pub length-frames_from :
    (k : ℕ) (chunks : List (List ℕ)) → length (frames_from k chunks) ≡ length chunks
length-frames_from k [] = refl
length-frames_from k (bytes ∷ rest) = ap suc (length-frames_from (suc k) rest)

-- The entry of a live session that counts from `k`.
abbrev pub LiveAt : ℕ → ℕ → ReplayBuffer → Manager → Type 0
LiveAt id k b m =
    (e : RuntimeEntry) × (l : LiveRuntime) × (get ℕ_discrete id m.runtimes ≡ some e)
    × (e.live ≡ some l)
    × (e.next_seq ≡ k)
    × (l.replay ≡ b)

pub forward-LiveAt :
    (id k : ℕ) (b : ReplayBuffer) (bytes : List ℕ) (m : Manager)
    → suc k < 2 ^ 64
    → LiveAt id k b m
    → LiveAt id (suc k) (push b (record { seq = k; bytes = bytes })) (forward id bytes m)
unfolding forward stamp on_live take_output
forward-LiveAt id k b bytes m w (e, l, found, live, next, buffer) = (
  stamp m.settings.recording bytes e,
  take_output m.settings.recording e.next_seq bytes l,
  get-modify_self ℕ_discrete id _ m.runtimes
      ∙ ap (Option.map (stamp m.settings.recording bytes)) found,
  ap (on_live m.settings.recording e.next_seq bytes) live,
  omega (arith, next),
  cc (next, buffer),
)

pub forward_all-LiveAt :
    (id k : ℕ) (b : ReplayBuffer) (chunks : List (List ℕ)) (m : Manager)
    → k + length chunks < 2 ^ 64
    → LiveAt id k b m
    → LiveAt id (k + length chunks) (push_all b (frames_from k chunks)) (forward_all id chunks m)
unfolding forward_all push_all
forward_all-LiveAt id k b [] m w h = subst (λ n. LiveAt id n b m) (omega arith) h
forward_all-LiveAt id k b (bytes ∷ rest) m w h =
    subst
      (λ n.
        LiveAt id n
          (push_all (push b (record { seq = k; bytes = bytes })) (frames_from (suc k) rest))
          (forward_all id rest (forward id bytes m)))
      (omega arith)
      (forward_all-LiveAt id (suc k) _ rest _ (omega arith)
        (forward-LiveAt id k b bytes m (omega arith) h))

pub replay-LiveAt :
    (id k : ℕ) (b : ReplayBuffer) (seen : Option ℕ) (m : Manager)
    → LiveAt id k b m
    → replay_session id seen m ≡ some (replay_since b seen)
unfolding replay_session replay_live runtime_view live_of
replay-LiveAt id k b seen m (e, l, found, live, next, buffer) = cc (found, live, buffer)

-- A session that has just gone live, in the registry under `id`.
abbrev pub JustLive : ℕ → Manager → Type 0
JustLive id m =
    (e : RuntimeEntry) × (l : LiveRuntime) × (get ℕ_discrete id m.runtimes ≡ some e)
    × (e.live ≡ some l)
    × (e.next_seq ≡ 1)
    × (l.replay ≡ new default_config)

-- After any output, of fewer than 2^64 - 1 chunks, of a session that has just gone live, a client
-- that comes back with a bookmark not before the evicted frames gets, through the manager, each
-- chunk after its bookmark once and in order.
pub replay_resumes :
    (id n : ℕ) (chunks : List (List ℕ)) (m : Manager)
    → JustLive id m
    → length chunks + 1 < 2 ^ 64
    → evicted_of default_config (frames_from 1 chunks) ≤ n
    → replay_session id (some n) (forward_all id chunks m)
      ≡ some (
          ok (record {
            frames = missed n (frames_from 1 chunks);
            latest_seq = length (frames_from 1 chunks);
          }))
replay_resumes id n chunks m h w le =
    replay-LiveAt id _ _ (some n) _
      (forward_all-LiveAt id 1 (new default_config) chunks m (omega arith) h)
    ∙ ap some (
        resume_complete default_config (frames_from 1 chunks) n (frames_from-Consecutive 1 chunks)
          (omega (arith, length-frames_from 1 chunks)) le)
