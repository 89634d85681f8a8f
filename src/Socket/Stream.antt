-- ===== src/Socket/Stream.antt =====
-- What reaches a client while the output of its session flows,
-- crates/relayterm-api/src/routes/v1/terminal_sessions.rs.
use relay_term.Prelude.{
  ℕ, suc, ◌+◌, ◌<◌, ◌≤◌, ◌≡◌, ◌∙◌, refl, sym, ap, subst, Bool, Bool-cases, true, false, inl, inr,
  some, List, [], ◌∷◌, ◌++◌, append-nil, append_assoc, leb, ltb, length, arith, All,
}
use relay_term.Frame
use relay_term.Frame.{encode_binary_frame}
use relay_term.Replay.{OutputFrame, ReplayBuffer, push, push_all}
use relay_term.Replay.Resume.{missed}
use relay_term.Manager.{Manager}
use relay_term.Manager.Replayed.{LiveAt, frames_from}
use relay_term.Socket.{
  Sent, binary, SocketState, Peer, Outside, send, put, send_encoded, send_binary_output,
}
use relay_term.Socket.Run.{
  Running, Turn, pty_frame, broadcast, output, turn, run, next_frame, loop_turn, go_on, frame_of,
  enqueue, broadcast_first,
}
use relay_term.Socket.Run

abbrev pub wire_of : Frame.Result (List ℕ) → List Sent
wire_of (Frame.ok bytes) = binary bytes ∷ []
wire_of (Frame.err e) = []

-- The frames as they are sent: one that is above the cap of the encoder is dropped.
abbrev pub wire : List OutputFrame → List Sent
wire [] = []
wire (f ∷ fs) = wire_of (encode_binary_frame Frame.output f.seq f.bytes) ++ wire fs

-- The output among the turns.
abbrev pub chunks_of : List Turn → List (List ℕ)
chunks_of [] = []
chunks_of (output bytes ∷ ts) = bytes ∷ chunks_of ts
chunks_of (pty_frame ∷ ts) = chunks_of ts
chunks_of (broadcast ∷ ts) = chunks_of ts
chunks_of (Run.client m ∷ ts) = chunks_of ts
chunks_of (Run.pty_closed ∷ ts) = chunks_of ts
chunks_of (Run.lagged n ∷ ts) = chunks_of ts

-- Output is made, broadcast and taken from the queue; the client says nothing and does not lag.
abbrev pub flows : Turn → Bool
flows (output bytes) = true
flows pty_frame = true
flows broadcast = true
flows (Run.client m) = false
flows Run.pty_closed = false
flows (Run.lagged n) = false

-- A running loop with a queue and no failing send.
abbrev pub flowing :
    Manager → List Sent → List OutputFrame → List OutputFrame → SocketState → Running
flowing m sent queue unsent st = record {
  connection = record {
    manager = m;
    socket = record { sent = sent; faults = [] };
    state = record st { live = some queue };
  };
  running = true;
  unsent = unsent;
}

pub wire-append : (xs ys : List OutputFrame) → wire (xs ++ ys) ≡ wire xs ++ wire ys
wire-append [] ys = refl
wire-append (f ∷ xs) ys =
    ap (λ l. wire_of (encode_binary_frame Frame.output f.seq f.bytes) ++ l) (wire-append xs ys)
    ∙ sym (
        append_assoc (wire_of (encode_binary_frame Frame.output f.seq f.bytes)) (wire xs) (wire ys))

pub missed-append :
    (n : ℕ) (xs ys : List OutputFrame) → missed n (xs ++ ys) ≡ missed n xs ++ missed n ys
missed-append n [] ys = refl
missed-append n (x ∷ xs) ys = elim (Bool-cases (ltb n x.seq)) [
  | inl e ↦ rw e (ap (λ l. x ∷ l) (missed-append n xs ys))
  | inr e ↦ rw e (missed-append n xs ys)
]

-- What is sent and what is still under way.
abbrev pub told : ℕ → List Sent → List OutputFrame → List OutputFrame → List Sent
told floor sent queue unsent = sent ++ wire (missed floor (queue ++ unsent))

abbrev pub Below : ℕ → List OutputFrame → Type 0
Below k fs = All (λ f. f.seq < k) fs

-- From `sent`, `queue` and `unsent` with the next number `k`, the turns lead to `r`, with `made` told.
abbrev pub Led :
    ℕ
    → ℕ
    → ReplayBuffer
    → SocketState
    → List Sent
    → List OutputFrame
    → List OutputFrame
    → List (List ℕ)
    → Running
    → Type 0
Led id k b st sent queue unsent chunks r =
    (m : Manager) × (sent' : List Sent) × (queue' : List OutputFrame) × (unsent' : List OutputFrame)
    × (r ≡ flowing m sent' queue' unsent' st)
    × LiveAt id (k + length chunks) (push_all b (frames_from k chunks)) m
    × (told st.min_live_seq sent' queue' unsent'
        ≡ told st.min_live_seq sent queue unsent ++ wire (frames_from k chunks))
    × (Below k (queue ++ unsent) → Below (k + length chunks) (queue' ++ unsent'))

module _ (st : SocketState) (m : Manager) (sent : List Sent) where
  pub encoded_sent :
      (x : Frame.Result (List ℕ)) (queue unsent : List OutputFrame)
      → send_encoded x (flowing m sent queue unsent st).connection
        ≡ (true, (flowing m (sent ++ (wire_of x ++ [])) queue unsent st).connection)
  unfolding send_encoded send put
  encoded_sent (Frame.ok bytes) queue unsent = refl
  encoded_sent (Frame.err e) queue unsent = rw (append-nil sent) refl

module _ (out : Outside) (p : Peer) (st : SocketState) (m : Manager) (sent : List Sent) where
  -- A frame of the queue is sent if it is above the floor.
  pub pty_frame_taken :
      (f : OutputFrame) (fs unsent : List OutputFrame)
      → turn out p pty_frame (flowing m sent (f ∷ fs) unsent st)
        ≡ flowing m (sent ++ wire (missed st.min_live_seq (f ∷ []))) fs unsent st
  unfolding turn loop_turn next_frame go_on send_binary_output
  pty_frame_taken f fs unsent = elim (Bool-cases (leb f.seq st.min_live_seq)) [
    | inl e ↦
        let low : ltb st.min_live_seq f.seq ≡ false = ground arith in
        rw (e, low, append-nil sent) refl
    | inr e ↦
        let high : ltb st.min_live_seq f.seq ≡ true = ground arith in
        rw
          (
            e,
            high,
            encoded_sent st m sent (encode_binary_frame Frame.output f.seq f.bytes) fs unsent,
          )
          refl
  ]

Below-append : (n : ℕ) (xs ys : List OutputFrame) → Below n xs → Below n ys → Below n (xs ++ ys)
Below-append n [] ys h k = k
Below-append n (x ∷ xs) ys h k = (h.0, Below-append n xs ys h.1 k)

Below-suc : (k n : ℕ) (fs : List OutputFrame) → k ≤ n → Below k fs → Below n fs
Below-suc k n [] le h = tt
Below-suc k n (f ∷ fs) le h = (omega (arith, h.0), Below-suc k n fs le h.1)

module _ (id k : ℕ) (b : ReplayBuffer) (st : SocketState) (m : Manager) (sent : List Sent) where
  -- A turn before the others that makes no output.
  pub Led-still :
      (queue unsent queue' unsent' : List OutputFrame) (sent' : List Sent) (chunks : List (List ℕ))
      (r : Running)
      → told st.min_live_seq sent' queue' unsent' ≡ told st.min_live_seq sent queue unsent
      → (Below k (queue ++ unsent) → Below k (queue' ++ unsent'))
      → Led id k b st sent' queue' unsent' chunks r
      → Led id k b st sent queue unsent chunks r
  Led-still queue unsent queue' unsent' sent' chunks r kept below
        (n, s, q, u, same, live, all, less) =
      (
        n,
        s,
        q,
        u,
        same,
        live,
        all ∙ ap (λ l. l ++ wire (frames_from k chunks)) kept,
        λ h. less (below h),
      )

  pub taken_told :
      (f : OutputFrame) (fs unsent : List OutputFrame)
      → told st.min_live_seq (sent ++ wire (missed st.min_live_seq (f ∷ []))) fs unsent
        ≡ told st.min_live_seq sent (f ∷ fs) unsent
  taken_told f fs unsent =
      append_assoc sent (wire (missed st.min_live_seq (f ∷ [])))
        (wire (missed st.min_live_seq (fs ++ unsent)))
      ∙ ap (λ l. sent ++ l)
          (sym (
              wire-append (missed st.min_live_seq (f ∷ [])) (missed st.min_live_seq (fs ++ unsent)))
            ∙ ap wire (sym (missed-append st.min_live_seq (f ∷ []) (fs ++ unsent))))

  -- The new frame is above the floor.
  made_told :
      (queue unsent : List OutputFrame) (bytes : List ℕ)
      → st.min_live_seq < k
      → told st.min_live_seq sent queue (unsent ++ frames_from k (bytes ∷ []))
        ≡ told st.min_live_seq sent queue unsent ++ wire (frames_from k (bytes ∷ []))
  made_told queue unsent bytes lt =
      let floor : ℕ = st.min_live_seq in
      let made : List OutputFrame = frames_from k (bytes ∷ []) in
      let new : missed floor made ≡ made = rw (ltb_above floor k lt) refl in
      ap (λ fs. sent ++ wire (missed floor fs)) (sym (append_assoc queue unsent made))
      ∙ ap (λ fs. sent ++ wire fs) (missed-append floor (queue ++ unsent) made)
      ∙ ap (λ l. sent ++ l) (wire-append (missed floor (queue ++ unsent)) (missed floor made))
      ∙ sym (append_assoc sent (wire (missed floor (queue ++ unsent))) (wire (missed floor made)))
      ∙ ap (λ fs. told floor sent queue unsent ++ wire fs) new
    where
      ltb_above : (x y : ℕ) → x < y → ltb x y ≡ true
      ltb_above x y h = ground arith

  pub Led-made :
      (queue unsent : List OutputFrame) (bytes : List ℕ) (chunks : List (List ℕ)) (r : Running)
      → st.min_live_seq < k
      → Led id
          (suc k)
          (push b (record { seq = k; bytes = bytes }))
          st
          sent
          queue
          (unsent ++ frames_from k (bytes ∷ []))
          chunks
          r
      → Led id k b st sent queue unsent (bytes ∷ chunks) r
  unfolding push_all
  Led-made queue unsent bytes chunks r lt (n, s, q, u, same, live, all, less) =
      let floor : ℕ = st.min_live_seq in
      let later : List Sent = wire (frames_from (suc k) chunks) in
      (
        n,
        s,
        q,
        u,
        same,
        subst
            (λ x.
              LiveAt id x
                (push_all (push b (record { seq = k; bytes = bytes })) (frames_from (suc k) chunks))
                n)
            (omega arith) live,
        all
            ∙ ap (λ l. l ++ later) (made_told queue unsent bytes lt)
            ∙ append_assoc (told floor sent queue unsent) (wire (frames_from k (bytes ∷ []))) later
            ∙ ap (λ l. told floor sent queue unsent ++ l)
                (sym (wire-append (frames_from k (bytes ∷ [])) (frames_from (suc k) chunks))),
        λ h. Below-suc (suc k + length chunks) (k + suc (length chunks)) (q ++ u) (omega arith) (
            less (
              subst (Below (suc k)) (append_assoc queue unsent (frames_from k (bytes ∷ []))) (
                Below-append (suc k) (queue ++ unsent) (frames_from k (bytes ∷ []))
                  (Below-suc k (suc k) (queue ++ unsent) (omega arith) h) (omega arith, tt)))),
      )
