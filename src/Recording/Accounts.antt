-- ===== src/Recording/Accounts.antt =====
-- The recorder as a whole, producers and task interleaved, accounts for every frame of the session,
-- crates/relayterm-terminal/src/recording.rs.
use relay_term.Prelude.{
  ℕ, suc, ◌^◌, ◌≤◌, ◌<◌, ◌≡◌, refl, subst, ◌⊎◌, inl, inr, true, false, Bool-cases, not, ◌&&◌,
  Option, none, some, List, [], ◌∷◌, ◌++◌, arith, length, ltb, leb, leb→le,
}
use relay_term.Recording.{
  RecordingWriterConfig, queue_capacity, PendingGap, GapReason, MarkerKind, MarkerPayload, Accepts,
  Command, output, mark, shutdown, fits_i64, allows_seq_zero,
}
use relay_term.Recording.Task.{on_marker, observe}
use relay_term.Recording.Covers.{InGap, Held, StoresMarkers}
use relay_term.Recording.Holds.{TaskOk}
use relay_term.Recording.Steps.{put_marker-TaskOk}
use relay_term.Recording.Producer.{
  Recorder, extend_gap, restore_gap, give_back, queued, full, task_gone, try_send, after_frame,
  record_output, after_marker, record_marker, recv_next,
}
use relay_term.Recording.Queue.{
  InQueue, NoShutdown, NoShutdown-append, after_mark, QueueOk, QueueOk-append, QueueOk-later,
  InQueue-append, GapUpTo, head_taken, head-TaskOk,
}

-- The number is with the task, in the queue, or in the gap that waits for the next frame.
abbrev pub Accounted : ℕ → Recorder → Type 0
Accounted s r = (Held s r.task ⊎ InQueue s r.queue) ⊎ InGap s r.pending_gap

-- What holds between two events, `n` being the newest number given.
pub record RecorderOk (c : RecordingWriterConfig) (n : ℕ) (r : Recorder) : Type 0 where
  pub last : ℕ
  pub task_ok : TaskOk c last r.task
  pub queue_ok : QueueOk last n r.queue
  pub no_shutdown : NoShutdown r.queue
  pub gap_ok : GapUpTo n r.pending_gap
  pub alive : r.running ≡ true
  pub accounted : (s : ℕ) → 0 < s → s ≤ n → Accounted s r

abbrev AccountedBy : ℕ → Recorder → List Command → Type 0
AccountedBy s r qs = (Held s r.task ⊎ InQueue s qs) ⊎ InGap s r.pending_gap

extend_gap-InGap :
    (o : Option PendingGap) (seq s : ℕ) (why : GapReason)
    → InGap s o ⊎ (s ≡ seq)
    → InGap s (extend_gap o seq why)
unfolding extend_gap
extend_gap-InGap none seq s why (inl h) = absurd h
extend_gap-InGap none seq s why (inr h) = (omega arith, omega arith)
extend_gap-InGap (some g) seq s why (inl h) = let (a, b) = h in (omega arith, omega arith)
extend_gap-InGap (some g) seq s why (inr h) = (omega arith, omega arith)

extend_gap-GapUpTo :
    (o : Option PendingGap) (seq n : ℕ) (why : GapReason)
    → GapUpTo n o
    → seq ≤ n
    → GapUpTo n (extend_gap o seq why)
unfolding extend_gap
extend_gap-GapUpTo none seq n why h le = le
extend_gap-GapUpTo (some g) seq n why h le = omega arith

-- A gap that comes back to an empty slot is as it was.
give_back-none : (o : Option PendingGap) → give_back o none ≡ o
unfolding give_back restore_gap
give_back-none none = refl
give_back-none (some g) = refl

GapUpTo-later : (o : Option PendingGap) (n later : ℕ) → n ≤ later → GapUpTo n o → GapUpTo later o
GapUpTo-later none n later le h = tt
GapUpTo-later (some g) n later le h = omega arith

try_send-queued :
    (cmd : Command) (r : Recorder)
    → r.running ≡ true
    → ltb (length r.queue) queue_capacity ≡ true
    → try_send cmd r ≡ queued (record r { queue = r.queue ++ cmd ∷ [] })
unfolding try_send
try_send-queued cmd r alive room = cc (alive, room)

pub try_send-full :
    (cmd : Command) (r : Recorder)
    → r.running ≡ true
    → ltb (length r.queue) queue_capacity ≡ false
    → try_send cmd r ≡ full
unfolding try_send
try_send-full cmd r alive room = cc (alive, room)

pub try_send-gone : (cmd : Command) (r : Recorder) → r.running ≡ false → try_send cmd r ≡ task_gone
unfolding try_send
try_send-gone cmd r gone = cc gone

up_to_suc : (s n : ℕ) → s ≤ suc n → (s ≤ n) ⊎ (s ≡ suc n)
up_to_suc s n le = elim (Bool-cases (leb s n)) [
  | inl e ↦ inl (leb→le s n e)
  | inr e ↦ inr (ground arith)
]

module _ (c : RecordingWriterConfig) (n : ℕ) (r : Recorder) (ok : RecorderOk c n r) where
  into_gap :
      (why : GapReason) (s : ℕ)
      → Accounted s r ⊎ (s ≡ suc n)
      → Accounted s (record r { pending_gap = extend_gap r.pending_gap (suc n) why })
  into_gap why s (inl (inl h)) = inl h
  into_gap why s (inl (inr h)) = inr (extend_gap-InGap _ _ s _ (inl h))
  into_gap why s (inr e) = inr (extend_gap-InGap _ _ s _ (inr e))

  -- A dropped frame joins the gap.
  dropped :
      (why : GapReason)
      → RecorderOk c (suc n) (record r { pending_gap = extend_gap r.pending_gap (suc n) why })
  dropped why = record {
    last = ok.last;
    task_ok = ok.task_ok;
    queue_ok = QueueOk-later _ n (suc n) r.queue (omega arith) ok.queue_ok;
    no_shutdown = ok.no_shutdown;
    gap_ok =
        extend_gap-GapUpTo _ _ _ why (GapUpTo-later _ n (suc n) (omega arith) ok.gap_ok)
          (omega arith);
    alive = ok.alive;
    accounted = λ s p le.
        into_gap why s
          (elim (up_to_suc s n le) [ inl b ↦ inl (ok.accounted s p b) | inr e ↦ inr e ]);
  }

  -- A frame that fits in the queue takes the gap with it.
  sent :
      (bytes : List ℕ)
      → 0 < length bytes
      → RecorderOk c (suc n) (record r {
        pending_gap = none;
        queue = r.queue ++ output (suc n) bytes r.pending_gap ∷ [];
      })
  sent bytes p = record {
    last = ok.last;
    task_ok = ok.task_ok;
    queue_ok =
        QueueOk-append _ n (suc n) r.queue _ ok.queue_ok (λ m le.
          (omega arith, p, GapUpTo-later _ n (suc n) (omega arith) ok.gap_ok, omega arith));
    no_shutdown = NoShutdown-append r.queue _ ok.no_shutdown tt;
    gap_ok = tt;
    alive = ok.alive;
    accounted = λ s q le.
        into_queue s (elim (up_to_suc s n le) [ inl b ↦ inl (ok.accounted s q b) | inr e ↦ inr e ]);
  }
    where
      into_queue :
          (s : ℕ)
          → Accounted s r ⊎ (s ≡ suc n)
          → Accounted s (record r {
            pending_gap = none;
            queue = r.queue ++ output (suc n) bytes r.pending_gap ∷ [];
          })
      into_queue s (inl (inl (inl h))) = inl (inl h)
      into_queue s (inl (inl (inr h))) = inl (inr (InQueue-append s r.queue _ (inl h)))
      into_queue s (inl (inr h)) = inl (inr (InQueue-append s r.queue _ (inr (inl (inr h)))))
      into_queue s (inr e) = inl (inr (InQueue-append s r.queue _ (inr (inl (inl e)))))

  pub after_frame-RecorderOk :
      (bytes : List ℕ) → 0 < length bytes → RecorderOk c (suc n) (record_output c (suc n) bytes r)
  unfolding record_output after_frame
  after_frame-RecorderOk bytes p = elim (Bool-cases (ltb c.chunk_hard_cap_bytes (length bytes))) [
    | inl big ↦ rw big (dropped _)
    | inr small ↦ rw small (elim (Bool-cases (ltb (length r.queue) queue_capacity)) [
      | inl room ↦
          rw (try_send-queued _ (record r { pending_gap = none }) ok.alive room) (sent bytes p)
      | inr no_room ↦
          rw
            (
              try_send-full _ (record r { pending_gap = none }) ok.alive no_room,
              give_back-none r.pending_gap,
            )
            (dropped _)
    ])
  ]

  -- A marker, or no change at all.
  marked :
      (kind : MarkerKind) (seq : ℕ) (payload : MarkerPayload)
      → RecorderOk c n (record r { queue = r.queue ++ mark kind seq payload ∷ [] })
  marked kind seq payload = record {
    last = ok.last;
    task_ok = ok.task_ok;
    queue_ok = QueueOk-append _ n n r.queue _ ok.queue_ok (λ m le. le);
    no_shutdown = NoShutdown-append r.queue _ ok.no_shutdown tt;
    gap_ok = ok.gap_ok;
    alive = ok.alive;
    accounted = λ s q le. elim (ok.accounted s q le) [
      | inl h ↦ elim h [
        | inl a ↦ inl (inl a)
        | inr b ↦ inl (inr (InQueue-append s r.queue _ (inl b)))
      ]
      | inr g ↦ inr g
    ];
  }

  pub record_marker-RecorderOk :
      (kind : MarkerKind) (seq : ℕ) (payload : MarkerPayload)
      → RecorderOk c n (record_marker kind seq payload r)
  unfolding record_marker after_marker
  record_marker-RecorderOk kind seq payload =
      elim (Bool-cases (leb seq 0 && not (allows_seq_zero kind))) [
        | inl bad ↦ rw bad ok
        | inr fine ↦ rw fine (elim (Bool-cases (fits_i64 seq)) [
          | inr big ↦ rw big ok
          | inl fits ↦ rw fits (elim (Bool-cases (ltb (length r.queue) queue_capacity)) [
            | inl room ↦
                rw (try_send-queued (mark kind seq payload) r ok.alive room)
                  (marked kind seq payload)
            | inr no_room ↦ rw (try_send-full (mark kind seq payload) r ok.alive no_room) ok
          ])
        ])
      ]

module _ (c : RecordingWriterConfig) (accepts : Accepts) (markers : StoresMarkers accepts)
    (w : c.chunk_hard_cap_bytes < 2 ^ 31) where
  pub recv_next-RecorderOk :
      (n : ℕ) (r : Recorder) (qs : List Command)
      → n < 2 ^ 63
      → r.queue ≡ qs
      → RecorderOk c n r
      → RecorderOk c n (recv_next c accepts qs r)
  unfolding recv_next on_marker observe
  recv_next-RecorderOk n r [] v e ok = ok
  recv_next-RecorderOk n r (output seq bytes gap ∷ qs) v e ok =
      let q = subst (QueueOk ok.last n) e ok.queue_ok in
      record {
        last = seq;
        task_ok = head-TaskOk c accepts markers w _ n seq bytes gap qs r.task v ok.task_ok q;
        queue_ok = q.3;
        no_shutdown = subst NoShutdown e ok.no_shutdown;
        gap_ok = ok.gap_ok;
        alive = ok.alive;
        accounted = λ s p le. elim (subst (AccountedBy s r) e (ok.accounted s p le)) [
          | inl h ↦
              inl (head_taken c accepts markers w _ n seq bytes gap qs r.task s v ok.task_ok q h)
          | inr g ↦ inr g
        ];
      }
  recv_next-RecorderOk n r (mark kind seq payload ∷ qs) v e ok =
      let q = subst (QueueOk ok.last n) e ok.queue_ok in
      record {
        last = ok.last;
        task_ok = put_marker-TaskOk c accepts markers w kind seq payload _ r.task;
        queue_ok = q;
        no_shutdown = subst NoShutdown e ok.no_shutdown;
        gap_ok = ok.gap_ok;
        alive = ok.alive;
        accounted = λ s p le. elim (subst (AccountedBy s r) e (ok.accounted s p le)) [
          | inl h ↦
              inl (after_mark c accepts markers w kind seq payload _ n qs r.task s v ok.task_ok q h)
          | inr g ↦ inr g
        ];
      }
  recv_next-RecorderOk n r (shutdown last_seq ∷ qs) v e ok =
      absurd (subst NoShutdown e ok.no_shutdown)
