-- ===== src/Memqueue/Invariant/Create.antt =====
-- A new message: `memqueue_msg_create` of src/memqueue.c.
use memqueue.Base.{
  ℕ, ◌+◌, ◌%◌, ◌^◌, ◌≤◌, ◌<◌, ◌≡◌, refl, List, [], ◌∷◌, ◌++◌, none, some, Text, Bool, ◌==◌,
  Bool-cases, ltb, ◌||◌, if◌then◌else◌, inl, inr, arith, ok, Option-cases, length-append, lt→ltb,
  ◌∙◌,
}
use memqueue.Base.Int.{ℤ, pos, pos_part, ltb_ℤ}
use memqueue.Expiry.{Tree, rb_search, insert_head}
use memqueue.Expiry.Search.{rb_link-total}
use memqueue.Memqueue.Types.{Ptr, Msg, MsgRef, Queue, Ins, RbTrees, store_queue}
use memqueue.Memqueue.Refs.{find_msg}
use memqueue.Memqueue.Refs.Lists.{refs, refs-append, RevsIn-append}
use memqueue.Memqueue.Refs.Counts.{QueueOk}
use memqueue.Memqueue.Sched.{
  msg_type, sched_obj, sched_in_tree, obj_sched_expire, sched_get_min_timeout,
}
use memqueue.Memqueue.Message.{int_max, new_msg, push_msg, next_msg_id, memqueue_msg_create}
use memqueue.Memqueue.Invariant.{Inv, ==_refl, update_at, store_queue-Inv, same-Inv}
use memqueue.Memqueue.Invariant.Retain.{ref_to}
use memqueue.Memqueue.Invariant.Notify.{Holds, Notified, notify_binders-Notified}

-- The state after a message was scheduled, or only numbered: the queues and the clients are those of
-- before.
pub record Scheduled (s s' : Ins) : Type 0 where
  pub queues : s'.queues ≡ s.queues
  pub clis : s'.clis ≡ s.clis
  pub store : s'.queue_store ≡ s.queue_store
  pub timed : s'.memqueue_expiry ≡ s.memqueue_expiry
  pub next_ptr : s.next_ptr ≤ s'.next_ptr

pub Scheduled-Inv : {base : Ptr → ℕ} {s s' : Ins} → Inv base s → Scheduled s s' → Inv base s'
Scheduled-Inv v e = same-Inv v e.queues e.clis e.store e.next_ptr

module _ (rb : RbTrees) where
  abbrev with_tree : Bool → Tree MsgRef → Ins → Ins
  with_tree wake t s = record s {
    msg_expiry = t;
    next_ptr = s.next_ptr + 1;
    signalled = s.signalled || wake;
  }

  abbrev wakes : ℕ → ℕ → Ins → Bool
  wakes now msecs s =
      let timeout = sched_get_min_timeout now s in (timeout == 0) || ltb msecs timeout

  -- A message can always be scheduled.
  sched_msg_total :
      (now : ℕ) (r : MsgRef) (msecs : ℕ) (s : Ins)
      → (s' : Ins) × (obj_sched_expire rb now (msg_type r) msecs s ≡ ok s') × Scheduled s s'
  unfolding obj_sched_expire sched_in_tree sched_obj
  sched_msg_total now r msecs s =
      let d = (now + msecs) % 2 ^ 32 in
      let same : (t : Tree MsgRef) → Scheduled s (with_tree (wakes now msecs s) t s) = λ t. record {
        queues = refl;
        clis = refl;
        store = refl;
        timed = refl;
        next_ptr = omega arith;
      } in
      elim (Option-cases (rb_search s.msg_expiry d)) [
        | inr (n, e) ↦
            let t = insert_head n.node_id r s.msg_expiry in
            (
              with_tree (wakes now msecs s) t s,
              rw (obj_sched_expire, sched_in_tree, sched_obj, e) refl,
              same t,
            )
        | inl e ↦
            let (t, run) =
              rb_link-total s.msg_expiry (record { node_id = s.next_ptr; msecs = d; objs = r ∷ [] })
                e in
            let t' = rb.of_msgs.insert_color s.next_ptr t in
            (
              with_tree (wakes now msecs s) t' s,
              rw (obj_sched_expire, sched_in_tree, sched_obj, e, run) refl,
              same t',
            )
      ]

  pub sched_if_total :
      (now : ℕ) (r : MsgRef) (msecs : ℤ) (s : Ins)
      → (s' : Ins) × ((if ltb_ℤ (pos 0) msecs
            then obj_sched_expire rb now (msg_type r) (pos_part msecs) s
            else ok s)
          ≡ ok s')
        × Scheduled s s'
  sched_if_total now r msecs s = elim (Bool-cases (ltb_ℤ (pos 0) msecs)) [
    | inl e ↦ rw e (sched_msg_total now r (pos_part msecs) s)
    | inr e ↦ rw e (
      s,
      refl,
      record { queues = refl; clis = refl; store = refl; timed = refl; next_ptr = omega arith },
    )
  ]

  find-append_new :
      (ms : List Msg) (m : Msg)
      → find_msg m.msg_id ms ≡ none
      → find_msg m.msg_id (ms ++ m ∷ []) ≡ some m
  unfolding find_msg
  find-append_new [] m e = rw (==_refl m.msg_id)
  find-append_new (x ∷ ms) m e = ground (arith, find-append_new ms m)

  push_msg-QueueOk :
      (base : ℕ) (q : Queue) (m : Msg)
      → QueueOk base q
      → m.rev ≡ q.rev + 1
      → QueueOk base (push_msg q m)
  unfolding refs
  push_msg-QueueOk base q m v e = record {
    counted = omega (arith, v.counted, length-append q.msg_queue (m ∷ []));
    held = omega (arith, v.held, refs-append q.msg_queue (m ∷ []));
    revs = RevsIn-append 0 q.rev q.msg_queue m v.revs (omega arith);
    table = v.table;
    idle = v.idle;
  }

  -- In a state in order, posting a message to a queue whose revision is below the largest int, under a
  -- number that the queue does not hold, returns. The message gets the next revision and stands last
  -- in its queue, each poller has it queued once for each of its binders whose revision is reached,
  -- and the state is in order again.
  pub memqueue_msg_create-Notified :
      {base : Ptr → ℕ} {s : Ins} (now : ℕ) (p : Ptr) (q : Queue) (msecs : ℤ) (body : Text)
      → Inv base s
      → s.queues p ≡ some q
      → q.rev < int_max
      → find_msg (next_msg_id s) q.msg_queue ≡ none
      → (s' : Ins) × (memqueue_msg_create rb now p msecs body s ≡ ok s')
        × Notified base s q.memqueue_binders
            (q.rev + 1)
            p
            (new_msg q msecs body (next_msg_id s))
            (push_msg q (new_msg q msecs body (next_msg_id s)))
            s'
  unfolding memqueue_msg_create
  memqueue_msg_create-Notified {base} {s} now p q msecs body v at room new =
      let m = new_msg q msecs body (next_msg_id s) in
      let s₁ = record s { unique_msg_id = next_msg_id s } in
      let (s₂, run, same) = sched_if_total now (ref_to p (next_msg_id s)) msecs s₁ in
      let at' : s₂.queues p ≡ some q = rw same.queues at in
      let v' : Inv base s₂ = Scheduled-Inv v (record {
        queues = same.queues;
        clis = same.clis;
        store = same.store;
        timed = same.timed;
        next_ptr = same.next_ptr;
      }) in
      let h : Holds base p m.msg_id (push_msg q m) m (store_queue p (push_msg q m) s₂) = record {
        inv =
            store_queue-Inv v' p q (push_msg q m) at'
              (push_msg-QueueOk (base p) q m (v.queue p q at) refl) (v'.live p q at') refl;
        at = update_at s₂.queues p (some (push_msg q m));
        found = find-append_new q.msg_queue m new;
      } in
      let (s', walk, out) =
        notify_binders-Notified q.memqueue_binders (q.rev + 1) p m (push_msg q m)
          (store_queue p (push_msg q m) s₂) h (v'.live p q at') in
      (
        s',
        rw (at, lt→ltb q.rev int_max room, run, at') walk,
        record {
          inv = out.inv;
          queue = out.queue;
          at = out.at;
          kept = out.kept;
          found = out.found;
          served = λ c d e. out.served c d (rw same.clis e);
          timed = out.timed ∙ same.timed;
          store = out.store ∙ same.store;
          others = λ a n. out.others a n ∙ rw n (λ i. same.queues i a);
        },
      )
