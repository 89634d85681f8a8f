-- ===== src/Socket/Flow.antt =====
-- A run in which output is made, broadcast and taken from the queue,
-- crates/relayterm-api/src/routes/v1/terminal_sessions.rs.
use relay_term.Prelude.{
  ℕ, suc, ◌+◌, ◌^◌, ◌<◌, ◌≡◌, refl, sym, ap, subst, true, List, [], ◌∷◌, ◌++◌, append-nil,
  append_assoc, length, arith, All,
}
use mathlib.Core.Bool.{true≢false}
use relay_term.Replay.{OutputFrame, ReplayBuffer, push, push_all}
use relay_term.Replay.Resume.{missed}
use relay_term.Manager.{Manager}
use relay_term.Manager.Pty.{forward}
use relay_term.Manager.Replayed.{LiveAt, frames_from, forward-LiveAt}
use relay_term.Socket.{Sent, SocketState, Peer, Outside}
use relay_term.Socket.Run.{
  Running, Turn, pty_frame, broadcast, output, turn, run, next_frame, loop_turn, go_on, frame_of,
  enqueue, broadcast_first,
}
use relay_term.Socket.Run
use relay_term.Socket.Stream.{
  wire, told, flows, chunks_of, flowing, Below, Led, Led-still, Led-made, taken_told,
  pty_frame_taken,
}

module _ (out : Outside) (p : Peer) (st : SocketState) where
  -- The forwarder's frame joins the frames that are not yet broadcast.
  output_made :
      (k : ℕ) (b : ReplayBuffer) (m : Manager) (sent : List Sent) (queue unsent : List OutputFrame)
      (bytes : List ℕ)
      → LiveAt p.session_id k b m
      → turn out p (output bytes) (flowing m sent queue unsent st)
        ≡ flowing
            (forward p.session_id bytes m)
            sent
            queue
            (unsent ++ frames_from k (bytes ∷ []))
            st
  unfolding turn frame_of
  output_made k b m sent queue unsent bytes (e, l, found, live, next, buffer) =
      rw (found, live, next) refl

  -- Whatever is told in the end is what was told before, and then the output of the turns.
  pub run-Led :
      (k : ℕ) (b : ReplayBuffer) (m : Manager) (sent : List Sent) (queue unsent : List OutputFrame)
      (ts : List Turn)
      → All (λ t. flows t ≡ true) ts
      → LiveAt p.session_id k b m
      → st.min_live_seq < k
      → k + length (chunks_of ts) < 2 ^ 64
      → Led p.session_id k b st sent queue unsent
          (chunks_of ts)
          (run out p ts (flowing m sent queue unsent st))
  unfolding run push_all turn loop_turn next_frame go_on broadcast_first enqueue
  run-Led k b m sent queue unsent [] h live lt w = (
    m,
    sent,
    queue,
    unsent,
    refl,
    subst (λ n. LiveAt p.session_id n b m) (omega arith) live,
    sym (append-nil (told st.min_live_seq sent queue unsent)),
    λ below. subst (λ n. Below n (queue ++ unsent)) (omega arith) below,
  )
  run-Led k b m sent queue unsent (output bytes ∷ ts) h live lt w =
      Led-made p.session_id k b st m sent queue unsent bytes (chunks_of ts) _ lt (
        subst
          (λ r.
            Led p.session_id (suc k) (push b (record { seq = k; bytes = bytes })) st sent queue
              (unsent ++ frames_from k (bytes ∷ [])) (chunks_of ts) (run out p ts r))
          (sym (output_made k b m sent queue unsent bytes live))
          (run-Led (suc k) _ (forward p.session_id bytes m) sent queue _ ts h.1
            (forward-LiveAt p.session_id k b bytes m (omega arith) live) (omega arith)
            (omega arith)))
  run-Led k b m sent [] unsent (pty_frame ∷ ts) h live lt w =
      run-Led k b m sent [] unsent ts h.1 live lt w
  run-Led k b m sent (f ∷ fs) unsent (pty_frame ∷ ts) h live lt w =
      Led-still p.session_id k b st m sent (f ∷ fs) unsent fs unsent
        (sent ++ wire (missed st.min_live_seq (f ∷ []))) (chunks_of ts) _
        (taken_told p.session_id k b st m sent f fs unsent) (λ below. below.1)
        (subst
          (λ r.
            Led p.session_id k b st (sent ++ wire (missed st.min_live_seq (f ∷ []))) fs unsent
              (chunks_of ts) (run out p ts r))
          (sym (pty_frame_taken out p st m sent f fs unsent))
          (run-Led k b m _ fs unsent ts h.1 live lt w))
  run-Led k b m sent queue [] (broadcast ∷ ts) h live lt w =
      run-Led k b m sent queue [] ts h.1 live lt w
  run-Led k b m sent queue (f ∷ fs) (broadcast ∷ ts) h live lt w =
      Led-still p.session_id k b st m sent queue (f ∷ fs) (queue ++ f ∷ []) fs sent (chunks_of ts) _
        (ap (λ l. sent ++ wire (missed st.min_live_seq l)) (append_assoc queue (f ∷ []) fs))
        (subst (Below k) (sym (append_assoc queue (f ∷ []) fs)))
        (run-Led k b m sent (queue ++ f ∷ []) fs ts h.1 live lt w)
  run-Led k b m sent queue unsent (Run.client c ∷ ts) h live lt w = absurd (true≢false (sym h.0))
  run-Led k b m sent queue unsent (Run.pty_closed ∷ ts) h live lt w = absurd (true≢false (sym h.0))
  run-Led k b m sent queue unsent (Run.lagged n ∷ ts) h live lt w = absurd (true≢false (sym h.0))
