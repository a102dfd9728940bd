-- ===== src/Memqueue/Invariant/Added.antt =====
-- What `memqueue_msg_create` of src/memqueue.c leaves.
use memqueue.Base.{
  ℕ, zero, suc, ◌+◌, ◌<◌, ◌≡◌, refl, ap, ◌∙◌, [], ◌∷◌, ◌++◌, none, some, Text, false, map, ◌==◌,
  if◌then◌else◌, arith, ok,
}
use mathlib.Core.List.{map-append}
use memqueue.Base.Int.{ℤ, pos, negsuc}
use memqueue.Memqueue.Types.{Ptr, Msg, Queue, CliBinder, Ins, RbTrees}
use memqueue.Memqueue.Refs.{find_msg}
use memqueue.Memqueue.Message.{int_max, is_kept, new_msg, next_msg_id, memqueue_msg_create}
use memqueue.Memqueue.Invariant.{Inv}
use memqueue.Memqueue.Invariant.Retain.{ref_to}
use memqueue.Memqueue.Invariant.Notify.{uncounted, bare, deliver, taken}
use memqueue.Memqueue.Invariant.Create.{memqueue_msg_create-Notified}

-- The references that the expiry of a message stands for: one where it has a deadline or none is
-- wanted (-1), none where the message is not to be kept.
abbrev pub expiry_refs : ℤ → ℕ
expiry_refs (pos zero) = 0
expiry_refs (pos (suc n)) = 1
expiry_refs (negsuc zero) = 1
expiry_refs (negsuc (suc n)) = 0

-- The message that is added to a queue of revision `rev`, with `n` references.
abbrev pub added : ℕ → ℕ → ℤ → Text → ℕ → Msg
added n rev msecs body i = record {
  body = body;
  ref_count = n;
  rev = rev + 1;
  new = 1;
  expiry = msecs;
  msg_id = i;
}

-- The queue `q` at `p` of the state `s`, to which the message was added.
pub record Added (base : Ptr → ℕ) (s : Ins) (p : Ptr) (q : Queue) (msecs : ℤ) (body : Text)
    (s' : Ins) : Type 0 where
  pub inv : Inv base s'
  pub queue : Queue
  pub at : s'.queues p ≡ some queue
  pub differs : bare queue ≡ (record q {
    ref_count = 0;
    rev = q.rev + 1;
    msgs_in_queue = q.msgs_in_queue + 1;
    msg_queue = map uncounted q.msg_queue ++ added 0 q.rev msecs body (next_msg_id s) ∷ [];
  })
  pub found :
      find_msg (next_msg_id s) queue.msg_queue
      ≡ some (
          added
            (expiry_refs msecs + taken q.memqueue_binders (q.rev + 1))
            q.rev
            msecs
            body
            (next_msg_id s))
  pub served :
      (c : Ptr) (d : CliBinder)
      → s.clis c ≡ some d
      → s'.clis c ≡ some (deliver q.memqueue_binders (q.rev + 1) (ref_to p (next_msg_id s)) c d)
  pub others : (a : Ptr) → (a == p) ≡ false → s'.queues a ≡ s.queues a

expiry_refs_lem : (msecs : ℤ) → (if is_kept msecs then 1 else 0) ≡ expiry_refs msecs
expiry_refs_lem (pos zero) = refl
expiry_refs_lem (pos (suc n)) = ground arith
expiry_refs_lem (negsuc zero) = refl
expiry_refs_lem (negsuc (suc n)) = ground arith

module _ (rb : RbTrees) where
  -- In a state in order, posting a message to a queue whose revision is below the largest int, under a
  -- number that the queue does not hold, returns. But for counts of references the queue is the one of
  -- before, with the next revision, one message more in its count, and at its end the message: it has
  -- the body, the expiry and the number that were given, the queue's new revision, and is new. Its
  -- references are one for its expiry, unless that is 0 or below -1, and one for each binder whose
  -- revision is reached; each poller has it queued once for each of its binders of that kind, the other
  -- queues are as before, and the state is in order.
  pub memqueue_msg_create_lem :
      {base : Ptr → ℕ} {s : Ins} (now : ℕ) (p : Ptr) (q : Queue) (msecs : ℤ) (body : Text)
      → Inv base s
      → s.queues p ≡ some q
      → q.rev < int_max
      → find_msg (next_msg_id s) q.msg_queue ≡ none
      → (s' : Ins) × (memqueue_msg_create rb now p msecs body s ≡ ok s')
        × Added base s p q msecs body s'
  memqueue_msg_create_lem {base} {s} now p q msecs body v at room new =
      let i = next_msg_id s in
      let bs = q.memqueue_binders in
      let (s', run, out) = memqueue_msg_create-Notified rb now p q msecs body v at room new in
      (
        s',
        run,
        record {
          inv = out.inv;
          queue = out.queue;
          at = out.at;
          differs =
              out.kept.rest
              ∙ ap
                  (λ l. record q {
                    ref_count = 0;
                    rev = q.rev + 1;
                    msgs_in_queue = q.msgs_in_queue + 1;
                    msg_queue = l;
                  })
                  (map-append uncounted q.msg_queue (new_msg q msecs body i ∷ []));
          found =
              out.found
              ∙ ap (λ n. some (added (n + taken bs (q.rev + 1)) q.rev msecs body i))
                  (expiry_refs_lem msecs);
          served = out.served;
          others = out.others;
        },
      )
