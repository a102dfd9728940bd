-- ===== src/Memqueue/Refs/Counts.antt =====
-- When a queue of src/memqueue.c is in order, and what a reference of a message changes of it.
use memqueue.Base.{
  ℕ, ◌+◌, ◌-◌, ◌≡◌, ◌≢◌, none, some, ◌==◌, if◌then◌else◌, length, arith, refl, Bool-cases, inl, inr,
}
use memqueue.Hash.Lookup.{IsValid}
use memqueue.Memqueue.Types.{Msg, Queue}
use memqueue.Memqueue.Refs.{find_msg, set_msg, without_msg}
use memqueue.Memqueue.Refs.Lists.{
  refs, RevsIn, refs-set, length-set_msg, RevsIn-set, refs-erase, length-erase_msg, RevsIn-erase,
}

-- `base` counts the references that belong to no message and no consumer: the one that the creation
-- takes, until the queue's expiry or a DELETE gives it back.
pub record QueueOk (base : ℕ) (q : Queue) : Type 0 where
  pub counted : q.msgs_in_queue ≡ length q.msg_queue
  pub held : q.ref_count ≡ base + refs q.msg_queue + length q.consumers.order
  pub revs : RevsIn 0 q.rev q.msg_queue
  pub table : IsValid q.consumers
  pub idle : q.consumers.order_next ≡ none

abbrev pub retained : ℕ → Msg → Queue → Queue
retained i m q = record q {
  msg_queue = set_msg i (record m { ref_count = m.ref_count + 1 }) q.msg_queue;
  ref_count = q.ref_count + 1;
}

-- The queue after one reference of the message is given back, before its own is.
abbrev pub lowered : ℕ → Msg → Queue → Queue
lowered i m q = if m.ref_count - 1 == 0 then without_msg i q else record q {
  msg_queue = set_msg i (record m { new = 0; ref_count = m.ref_count - 1 }) q.msg_queue;
}

pub lowered_same :
    (i : ℕ) (m : Msg) (q : Queue)
    → ((lowered i m q).q_id ≡ q.q_id)
      × ((lowered i m q).ref_count ≡ q.ref_count)
      × ((lowered i m q).memqueue_binders ≡ q.memqueue_binders)
lowered_same i m q = elim (Bool-cases (m.ref_count - 1 == 0)) [
  | inl e ↦ rw e (refl, refl, refl)
  | inr e ↦ rw e (refl, refl, refl)
]

module _ (base i : ℕ) (m : Msg) (q : Queue) (v : QueueOk base q)
    (found : find_msg i q.msg_queue ≡ some m) where
  pub retained-QueueOk : QueueOk base (retained i m q)
  retained-QueueOk = record {
    counted = omega (
      arith,
      v.counted,
      length-set_msg i m (record m { ref_count = m.ref_count + 1 }) q.msg_queue,
    );
    held =
        omega (
          arith,
          v.held,
          refs-set i m (record m { ref_count = m.ref_count + 1 }) q.msg_queue found,
        );
    revs = RevsIn-set i m _ 0 q.rev q.msg_queue found refl v.revs;
    table = v.table;
    idle = v.idle;
  }

  pub lowered-QueueOk :
      m.ref_count ≢ 0
      → QueueOk base (record (lowered i m q) { ref_count = (lowered i m q).ref_count - 1 })
        × (q.ref_count ≢ 0)
  lowered-QueueOk n = (
    elim (Bool-cases (m.ref_count - 1 == 0)) [
      | inl last ↦ rw last (record {
        counted = omega (arith, v.counted, length-erase_msg i m q.msg_queue found);
        held = ground (arith, v.held, refs-erase i m q.msg_queue found);
        revs = RevsIn-erase i m 0 q.rev q.msg_queue v.revs;
        table = v.table;
        idle = v.idle;
      })
      | inr more ↦
          let m' : Msg = record m { new = 0; ref_count = m.ref_count - 1 } in
          rw more (record {
            counted = omega (arith, v.counted, length-set_msg i m m' q.msg_queue);
            held = ground (
              arith,
              v.held,
              refs-set i m m' q.msg_queue found,
              refs-erase i m q.msg_queue found,
            );
            revs = RevsIn-set i m m' 0 q.rev q.msg_queue found refl v.revs;
            table = v.table;
            idle = v.idle;
          })
    ],
    λ e. omega (arith, v.held, refs-erase i m q.msg_queue found, n),
  )
