-- ===== src/Memqueue/Invariant/Retain.antt =====
-- Taking a reference of a message: `memqueue_msg_retain` of src/memqueue.c.
use memqueue.Base.{ℕ, ◌≡◌, refl, List, [], ◌∷◌, some, ◌==◌, Bool-cases, inl, inr, arith, ok, ap}
use memqueue.Memqueue.Types.{
  Ptr, Msg, MsgRef, Queue, Binder, CliBinder, Ins, store_queue, store_cli,
}
use memqueue.Memqueue.Refs.{find_msg, memqueue_retain, memqueue_msg_retain}
use memqueue.Memqueue.Refs.Counts.{retained, retained-QueueOk}
use memqueue.Memqueue.Invariant.{
  Live, Inv, Keeps, ==_refl, store_queue-store_queue, store_queue-Inv,
}

abbrev pub ref_to : Ptr → ℕ → MsgRef
ref_to p i = record { memqueue = p; msg_id = i }

-- The message and its queue both count one more.
pub memqueue_msg_retain_lem :
    (p i : ℕ) (m : Msg) (q : Queue) (s : Ins)
    → s.queues p ≡ some q
    → find_msg i q.msg_queue ≡ some m
    → memqueue_msg_retain (ref_to p i) s ≡ ok (store_queue p (retained i m q) s)
unfolding memqueue_msg_retain memqueue_retain
memqueue_msg_retain_lem p i m q s at found =
    rw (at, found, ==_refl p) (ap ok (store_queue-store_queue p (retained i m q) _ s))

-- In a state in order, a reference of a message that is in its queue can be taken: nothing faults,
-- and the state is in order afterwards.
pub memqueue_msg_retain-Inv :
    {base : Ptr → ℕ} {s : Ins} (p i : ℕ) (m : Msg) (q : Queue)
    → Inv base s
    → s.queues p ≡ some q
    → find_msg i q.msg_queue ≡ some m
    → Keeps base (memqueue_msg_retain (ref_to p i) s)
memqueue_msg_retain-Inv {base} {s} p i m q v at found = (
  store_queue p (retained i m q) s,
  memqueue_msg_retain_lem p i m q s at found,
  store_queue-Inv v p q (retained i m q) at (retained-QueueOk (base p) i m q (v.queue p q at) found)
      (v.live p q at) refl,
)

module _ {base : Ptr → ℕ} {s : Ins} (v : Inv base s) (c : Ptr) (b b' : CliBinder)
    (at : s.clis c ≡ some b) where
  pub Live-store : (bs : List Binder) → Live s.clis bs → Live (store_cli c b' s).clis bs
  Live-store [] l = tt
  Live-store (x ∷ bs) l =
      let (d, there) = l.0 in
      (
        elim (Bool-cases (x.cli_binder == c)) [
          | inl hit ↦ (b', rw hit)
          | inr miss ↦ (d, rw miss there)
        ],
        Live-store bs l.1,
      )

  -- Any write to a client that is there keeps the invariant.
  pub store_cli-Inv : Inv base (store_cli c b' s)
  store_cli-Inv = record {
    queue = v.queue;
    live = λ p q e. Live-store q.memqueue_binders (v.live p q e);
    fresh = λ p l. ground (arith, v.fresh p l);
    table = v.table;
    stored = v.stored;
  }
