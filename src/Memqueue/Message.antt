-- ===== src/Memqueue/Message.antt =====
-- src/memqueue.c: a new message, and what is queued for the pollers.
use memqueue.Base.{
  ℕ, ◌+◌, ◌-◌, ◌%◌, ◌^◌, Bool, true, List, [], ◌∷◌, ◌++◌, Text, ltb, ◌&&◌, ◌||◌, if◌then◌else◌, Run,
  ok, overflow, guard, deref, ◌>>=◌, ◌>>◌,
}
use memqueue.Base.Int.{ℤ, pos, negsuc, leb_ℤ, ltb_ℤ, pos_part}
use memqueue.Memqueue.Types.{Ptr, Msg, MsgRef, Binder, Queue, Ins, RbTrees, store_queue, store_cli}
use memqueue.Memqueue.Refs.{memqueue_msg_retain}
use memqueue.Memqueue.Sched.{msg_type, obj_sched_expire}

unfoldable pub cli_binder_enqueue_msg : Ptr → MsgRef → Ins → Run Ins
cli_binder_enqueue_msg c r s = do
  b ← deref (s.clis c)
  memqueue_msg_retain r (store_cli c (record b { pending_msgs = b.pending_msgs ++ r ∷ [] }) s)

unfoldable pub cli_wakeup : Ptr → Ins → Run Ins
cli_wakeup c s = do b ← deref (s.clis c); ok (store_cli c (record b { signalled = true }) s)

-- `LIST_FOREACH(memqueue_binder, &q->memqueue_binders, q_next)`; `rev` is `q->rev`.
unfoldable pub notify_binders : List Binder → ℕ → MsgRef → Ins → Run Ins
unfolding cli_binder_enqueue_msg cli_wakeup
notify_binders [] rev r s = ok s
notify_binders (b ∷ bs) rev r s = do
  s' ←
      (if leb_ℤ b.rev (pos rev)
        then (do s₁ ← cli_binder_enqueue_msg b.cli_binder r s; cli_wakeup b.cli_binder s₁)
        else ok s)
  notify_binders bs rev r s'

-- A signed `int` goes up to this.
abbrev pub int_max : ℕ
int_max = 2 ^ 31 - 1

-- Whether `memqueue_msg_create` takes a reference on behalf of the message's expiry.
abbrev pub is_kept : ℤ → Bool
is_kept msecs = ltb_ℤ (pos 0) msecs || (leb_ℤ msecs (negsuc 0) && leb_ℤ (negsuc 0) msecs)

abbrev pub new_msg : Queue → ℤ → Text → ℕ → Msg
new_msg q msecs body msg_id = record {
  body = body;
  ref_count = if is_kept msecs then 1 else 0;
  rev = q.rev + 1;
  new = 1;
  expiry = msecs;
  msg_id = msg_id;
}

-- The queue with the message at its tail. A kept message holds a reference of its queue.
abbrev pub push_msg : Queue → Msg → Queue
push_msg q m = record q {
  rev = m.rev;
  msg_queue = q.msg_queue ++ m ∷ [];
  msgs_in_queue = q.msgs_in_queue + 1;
  ref_count = q.ref_count + m.ref_count;
}

abbrev pub next_msg_id : Ins → ℕ
next_msg_id s = (s.unique_msg_id + 1) % 2 ^ 64

module _ (rb : RbTrees) where
  -- The reference of the message's expiry is taken on the object before it is linked, which is all
  -- the same to every reader.
  unfoldable pub memqueue_msg_create : ℕ → Ptr → ℤ → Text → Ins → Run Ins
  unfolding notify_binders
  memqueue_msg_create now p msecs body s = do
    q ← deref (s.queues p)
    guard (ltb q.rev int_max) overflow
    let m = new_msg q msecs body (next_msg_id s)
    let r : MsgRef = record { memqueue = p; msg_id = m.msg_id }
    let s₁ = record s { unique_msg_id = m.msg_id }
    s₂ ←
        (if ltb_ℤ (pos 0) msecs
          then obj_sched_expire rb now (msg_type r) (pos_part msecs) s₁
          else ok s₁)
    q' ← deref (s₂.queues p)
    notify_binders q'.memqueue_binders m.rev r (store_queue p (push_msg q' m) s₂)
