-- ===== src/Socket/Resumed.antt =====
-- A client that comes back asks for what it missed, and then follows the live output,
-- crates/relayterm-api/src/routes/v1/terminal_sessions.rs.
use relay_term.Prelude.{
  ℕ, suc, ◌+◌, ◌^◌, ◌<◌, ◌≤◌, ◌≡◌, ◌∙◌, refl, sym, ap, subst, max, true, false, Option, none, some,
  List, [], ◌∷◌, ◌++◌, append-nil, append_assoc, length, length-append, arith, All, ltb,
}
use relay_term.Frame
use relay_term.Frame.{encode_binary_frame}
use relay_term.Replay.{OutputFrame, ReplayBuffer, push, push_all, new, default_config, ReplayRange}
use relay_term.Replay
use relay_term.Replay.Resume.{missed, evicted_of, resume_complete}
use relay_term.Manager.{Manager}
use relay_term.Manager.Pty.{replay_session}
use relay_term.Manager.Replayed.{
  LiveAt, JustLive, frames_from, forward_all, forward_all-LiveAt, replay-LiveAt,
  frames_from-Consecutive, length-frames_from,
}
use relay_term.Socket.{
  Sent, text, replay_start, replay_end, attach, SocketState, Peer, Outside, send, put, send_frames,
  send_binary_output, last_seq, emit_replay, emit_replay_range,
}
use relay_term.Socket.Handlers.{
  text_frame, handle_recv_outcome, handle_text_frame, handle_msg, handshake, bookmark_of,
  replay_from, answer_replay,
}
use relay_term.Socket.Run.{Running, Turn, client, turn, run, loop_turn, go_on}
use relay_term.Socket.Stream.{wire, wire_of, told, flows, chunks_of, flowing, Below, encoded_sent}
use relay_term.Socket.Flow.{run-Led}

-- The frames of a replay between their two messages; nothing is sent for no frame.
abbrev pub replay_wire : ℕ → List OutputFrame → List Sent
replay_wire latest [] = []
replay_wire latest (f ∷ fs) =
    text (replay_start f.seq (last_seq f.seq fs)) ∷ (wire (f ∷ fs) ++ text (replay_end latest) ∷ [])

-- The state after the handshake.
abbrev pub shaken : ℕ → SocketState → SocketState
shaken latest st = record st {
  replay_handshake_done = true;
  min_live_seq = max st.min_live_seq latest;
}

module _ (m : Manager) (queue unsent : List OutputFrame) (st : SocketState) where
  frames_sent :
      (sent : List Sent) (fs : List OutputFrame)
      → send_frames fs (flowing m sent queue unsent st).connection
        ≡ (true, (flowing m (sent ++ wire fs) queue unsent st).connection)
  unfolding send_frames send_binary_output
  frames_sent sent [] = rw (append-nil sent) refl
  frames_sent sent (f ∷ fs) =
      let x : Frame.Result (List ℕ) = encode_binary_frame Frame.output f.seq f.bytes in
      rw (encoded_sent st m sent x queue unsent) (
        frames_sent (sent ++ (wire_of x ++ [])) fs
        ∙ ap (λ l. (true, (flowing m l queue unsent st).connection))
            (append_assoc sent (wire_of x ++ []) (wire fs)
              ∙ ap (λ l. sent ++ (l ++ wire fs)) (append-nil (wire_of x))))

  replay_sent :
      (sent : List Sent) (latest : ℕ) (fs : List OutputFrame)
      → emit_replay latest fs (flowing m sent queue unsent st).connection
        ≡ (tt, (flowing m (sent ++ replay_wire latest fs) queue unsent st).connection)
  unfolding emit_replay send put
  replay_sent sent latest [] = rw (append-nil sent) refl
  replay_sent sent latest (f ∷ fs) =
      rw (frames_sent (sent ++ text (replay_start f.seq (last_seq f.seq fs)) ∷ []) (f ∷ fs)) (
        ap (λ l. (tt, (flowing m l queue unsent st).connection))
          (append_assoc (sent ++ text (replay_start f.seq (last_seq f.seq fs)) ∷ []) (wire (f ∷ fs))
              (text (replay_end latest) ∷ [])
            ∙ append_assoc sent (text (replay_start f.seq (last_seq f.seq fs)) ∷ [])
                (wire (f ∷ fs) ++ text (replay_end latest) ∷ [])))

module _ (m : Manager) (queue unsent : List OutputFrame) (st : SocketState) where
  -- The handshake of a client with a bookmark.
  handshaken :
      (out : Outside) (p : Peer) (sent : List Sent) (n latest : ℕ) (fs : List OutputFrame)
      → st.replay_handshake_done ≡ false
      → 0 < n
      → replay_session p.session_id (some n) m
        ≡ some (Replay.ok (record { frames = fs; latest_seq = latest }))
      → turn out p (client (text_frame (some (attach (some n))))) (flowing m sent queue unsent st)
        ≡ flowing m (sent ++ replay_wire latest fs) queue unsent (shaken latest st)
  unfolding turn loop_turn go_on handle_recv_outcome handle_text_frame handle_msg handshake
      bookmark_of replay_from answer_replay emit_replay_range
  handshaken out p sent n latest fs fresh pos found =
      let above : ltb 0 n ≡ true = ground arith in
      rw (fresh, above, found)
        (ap (λ r. record { connection = r.1; running = true; unsent = unsent })
          (replay_sent m queue unsent (shaken latest st) sent latest fs))

push_all-frames :
    (k : ℕ) (b : ReplayBuffer) (xs ys : List (List ℕ))
    → push_all (push_all b (frames_from k xs)) (frames_from (k + length xs) ys)
      ≡ push_all b (frames_from k (xs ++ ys))
unfolding push_all
push_all-frames k b [] ys = ap (λ n. push_all b (frames_from n ys)) (omega arith)
push_all-frames k b (x ∷ xs) ys =
    ap
      (λ n.
        push_all (push_all (push b (record { seq = k; bytes = x })) (frames_from (suc k) xs))
          (frames_from n ys))
      (omega arith)
    ∙ push_all-frames (suc k) (push b (record { seq = k; bytes = x })) xs ys

missed-Below : (n : ℕ) (fs : List OutputFrame) → Below (suc n) fs → missed n fs ≡ []
missed-Below n [] h = refl
missed-Below n (f ∷ fs) h = ground (arith, h.0, missed-Below n fs h.1)

abbrev pub queue_of : Option (List OutputFrame) → List OutputFrame
queue_of none = []
queue_of (some fs) = fs

-- From the run `r` on, the client asks for what came after `n`, and then the turns follow: it is told the
-- frames `missed` and the output of the turns.
abbrev pub Resumes : Outside → Peer → ℕ → ℕ → List OutputFrame → List Turn → Running → Type 0
Resumes out p n latest missed_frames us r =
    let after : Running = run out p (client (text_frame (some (attach (some n)))) ∷ us) r in
    told latest after.connection.socket.sent (queue_of after.connection.state.live) after.unsent
    ≡ r.connection.socket.sent
      ++ replay_wire latest missed_frames
      ++ wire (frames_from (suc latest) (chunks_of us))

module _ (out : Outside) (p : Peer) (st : SocketState) (latest n : ℕ) (us : List Turn) where
  Resumes-from :
      (b : ReplayBuffer) (m : Manager) (sent : List Sent) (queue unsent fs : List OutputFrame)
      → LiveAt p.session_id (suc latest) b m
      → replay_session p.session_id (some n) m
        ≡ some (Replay.ok (record { frames = fs; latest_seq = latest }))
      → st.replay_handshake_done ≡ false
      → st.min_live_seq ≡ 0
      → 0 < n
      → All (λ t. flows t ≡ true) us
      → Below (suc latest) (queue ++ unsent)
      → suc latest + length (chunks_of us) < 2 ^ 64
      → Resumes out p n latest fs us (flowing m sent queue unsent st)
  unfolding run
  Resumes-from b m sent queue unsent fs live found fresh low pos quiet below w =
      let floor : max st.min_live_seq latest ≡ latest = omega (arith, low) in
      let (m', sent', queue', unsent', same, live', all, less) =
        run-Led out p (shaken latest st) (suc latest) b m (sent ++ replay_wire latest fs) queue
          unsent us quiet live (omega (arith, low)) w in
      let asked : run out p (client (text_frame (some (attach (some n)))) ∷ us)
            (flowing m sent queue unsent st)
          ≡ flowing m' sent' queue' unsent' (shaken latest st) =
        ap (run out p us) (handshaken m queue unsent st out p sent n latest fs fresh pos found)
        ∙ same in
      let later : List Sent = wire (frames_from (suc latest) (chunks_of us)) in
      let ended : told latest sent' queue' unsent'
          ≡ told latest (sent ++ replay_wire latest fs) queue unsent ++ later =
        subst
          (λ x.
            told x sent' queue' unsent'
            ≡ told x (sent ++ replay_wire latest fs) queue unsent ++ later)
          floor all in
      subst
        (λ x.
          told latest x.connection.socket.sent (queue_of x.connection.state.live) x.unsent
          ≡ sent ++ replay_wire latest fs ++ later)
        (sym asked)
        (ended
          ∙ ap (λ l. l ++ later)
              (ap (λ l. sent ++ replay_wire latest fs ++ wire l)
                  (missed-Below latest (queue ++ unsent) below)
                ∙ append-nil (sent ++ replay_wire latest fs)))

-- A session has just gone live and has made some output when a client attaches to it. While no send fails
-- and the client does not lag behind, output is made, broadcast and taken from the queue; then the client
-- asks for what it has missed after `n`, which is above 0 and not before the evicted frames, and the turns
-- go on; the socket has done no replay handshake and holds back no frame. From then on, what is sent and what is still under way is each frame after `n` once and in order, first the
-- missed ones between the two messages of a replay, then the new ones; a frame above the cap of the encoder
-- is left out. The session makes fewer than 2^64 - 1 frames.
pub stream-Resumes :
    (out : Outside) (p : Peer) (n : ℕ) (before : List (List ℕ)) (ts us : List Turn) (m : Manager)
    (sent : List Sent) (st : SocketState)
    → JustLive p.session_id m
    → st.replay_handshake_done ≡ false
    → st.min_live_seq ≡ 0
    → All (λ t. flows t ≡ true) ts
    → All (λ t. flows t ≡ true) us
    → 1 + length before + length (chunks_of ts) + length (chunks_of us) < 2 ^ 64
    → 0 < n
    → evicted_of default_config (frames_from 1 (before ++ chunks_of ts)) ≤ n
    → Resumes out p n
        (length before + length (chunks_of ts))
        (missed n (frames_from 1 (before ++ chunks_of ts)))
        us
        (run out p ts (flowing (forward_all p.session_id before m) sent [] [] st))
stream-Resumes out p n before ts us m sent st h fresh low flow quiet w pos le =
    let id : ℕ = p.session_id in
    let made : List (List ℕ) = before ++ chunks_of ts in
    let latest : ℕ = length before + length (chunks_of ts) in
    let (m', sent', queue, unsent, same, live, all, below) =
      run-Led out p st (1 + length before) (push_all (new default_config) (frames_from 1 before))
        (forward_all id before m) sent [] [] ts flow
        (forward_all-LiveAt id 1 (new default_config) before m (omega arith) h) (omega (arith, low))
        (omega arith) in
    let counted : 1 + length before + length (chunks_of ts) ≡ suc latest = omega arith in
    let many : length (frames_from 1 made) ≡ latest =
      length-frames_from 1 made ∙ length-append before (chunks_of ts) in
    let buffer : LiveAt id (suc latest) (push_all (new default_config) (frames_from 1 made)) m' =
      subst (λ k. LiveAt id k (push_all (new default_config) (frames_from 1 made)) m') counted
        (subst (λ b. LiveAt id (1 + length before + length (chunks_of ts)) b m')
          (push_all-frames 1 (new default_config) before (chunks_of ts)) live) in
    subst (Resumes out p n latest (missed n (frames_from 1 made)) us) (sym same) (
      Resumes-from out p st latest n us _ m' sent' queue unsent _ buffer
        (replay-LiveAt id _ _ (some n) m' buffer
          ∙ ap some (
              resume_complete default_config (frames_from 1 made) n (frames_from-Consecutive 1 made)
                (omega (arith, many)) le
              ∙ ap
                  (λ k.
                    Replay.ok (record { frames = missed n (frames_from 1 made); latest_seq = k }))
                  many))
        fresh low pos quiet (subst (λ k. Below k (queue ++ unsent)) counted (below tt))
        (omega arith))
