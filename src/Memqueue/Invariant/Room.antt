-- ===== src/Memqueue/Invariant/Room.antt =====
-- A queue that a message can be posted to, once a full one's head was tried, as `is_memqueue_full` of
-- src/memqueue.c tries it.
use memqueue.Base.{
  ℕ, ◌+◌, ◌<◌, ◌≡◌, refl, ap, ◌∙◌, List, ◌∷◌, none, some, ◌==◌, Bool-cases, inl, inr, arith, length,
}
use memqueue.Memqueue.Types.{Ptr, Msg, Queue, Ins, update, store_queue}
use memqueue.Memqueue.Refs.{find_msg}
use memqueue.Memqueue.Refs.Lists.{refs, RevsIn, RevsIn-mono}
use memqueue.Memqueue.Refs.Counts.{QueueOk}
use memqueue.Memqueue.Message.{int_max, next_msg_id}
use memqueue.Memqueue.Invariant.{Inv, update_at, store_queue-Inv}
use memqueue.Memqueue.Invariant.Deadlines.{QueuesThere, QueuesThere-kept}
use memqueue.Memqueue.Invariant.Rescheduled.{OnTree}
use memqueue.Memqueue.Invariant.Full.{tried}

tried-QueueOk :
    (base : ℕ) (m : Msg) (ms : List Msg) (q : Queue)
    → q.msg_queue ≡ m ∷ ms
    → QueueOk base q
    → QueueOk base (tried m ms q)
unfolding refs
tried-QueueOk base m ms q e k =
    let r : refs q.msg_queue ≡ m.ref_count + refs ms = ap refs e in
    let l : length q.msg_queue ≡ length ms + 1 = ap length e ∙ omega arith in
    let v : RevsIn 0 q.rev (m ∷ ms) = rw e at k.revs in
    elim (Bool-cases (m.ref_count == 0)) [
      | inl z ↦ rw z (record {
        counted = omega (arith, k.counted, l);
        held = ground (arith, k.held, r, z);
        revs = RevsIn-mono 0 m.rev q.rev ms (omega arith) v.1;
        table = k.table;
        idle = k.idle;
      })
      | inr z ↦ rw z (record {
        counted = omega (arith, k.counted, l);
        held = omega (arith, k.held, r);
        revs = v;
        table = k.table;
        idle = k.idle;
      })
    ]

tried-none :
    (i : ℕ) (m : Msg) (ms : List Msg) (q : Queue)
    → find_msg i (m ∷ ms) ≡ none
    → find_msg i (tried m ms q).msg_queue ≡ none
unfolding find_msg
tried-none i m ms q e = ground arith

pub tried_same :
    (m : Msg) (ms : List Msg) (q : Queue)
    → ((tried m ms q).rev ≡ q.rev)
      × ((tried m ms q).expiry_node ≡ q.expiry_node)
      × ((tried m ms q).q_id ≡ q.q_id)
      × ((tried m ms q).memqueue_binders ≡ q.memqueue_binders)
tried_same m ms q = elim (Bool-cases (m.ref_count == 0)) [
  | inl z ↦ rw z (refl, refl, refl, refl)
  | inr z ↦ rw z (refl, refl, refl, refl)
]

-- A queue that a message can be posted to; every queue whose deadline is in the tree is there.
pub record CanPost (base : Ptr → ℕ) (p : Ptr) (q : Queue) (s : Ins) : Type 0 where
  pub inv : Inv base s
  pub at : s.queues p ≡ some q
  pub on_tree : OnTree q.expiry_node s.memqueue_expiry
  pub there : QueuesThere s.queues s.memqueue_expiry
  pub room : q.rev < int_max
  pub new : find_msg (next_msg_id s) q.msg_queue ≡ none

pub tried-CanPost :
    {base : Ptr → ℕ} {s : Ins} (p : Ptr) (m : Msg) (ms : List Msg) (q : Queue)
    → q.msg_queue ≡ m ∷ ms
    → CanPost base p q s
    → CanPost base p (tried m ms q) (store_queue p (tried m ms q) s)
tried-CanPost {base} {s} p m ms q e c =
    let (rev, node, id, binders) = tried_same m ms q in
    record {
      inv =
          store_queue-Inv c.inv p q (tried m ms q) c.at
            (tried-QueueOk (base p) m ms q e (c.inv.queue p q c.at))
            (rw binders (c.inv.live p q c.at)) id;
      at = update_at s.queues p (some (tried m ms q));
      on_tree = rw node c.on_tree;
      there =
          QueuesThere-kept s.queues (update s.queues p (some (tried m ms q))) s.memqueue_expiry p
            (tried m ms q) (λ a n. rw n refl) (update_at s.queues p (some (tried m ms q))) c.there;
      room = rw rev c.room;
      new = tried-none (next_msg_id s) m ms q (rw e at c.new);
    }
