-- ===== src/Memqueue/Steps/Reached.antt =====
-- Every state that the steps of src/memqueue.c lead to.

use memqueue.Base.{ℕ}
use memqueue.Memqueue.Types.{Ptr, Ins, RbTrees}
use memqueue.Memqueue.Cleaner.{set_objs}
use memqueue.Memqueue.Invariant.{Inv}
use memqueue.Memqueue.Invariant.Open.{memqueue_init-Inv, create_made}
use memqueue.Memqueue.Invariant.Create.{memqueue_msg_create-Notified}
use memqueue.Memqueue.Invariant.Delete.{given_back, on_queue_delete_lem}
use memqueue.Memqueue.Steps.{
  Step, Reach, create, post, remove, retain, release, connect, bind, join, fetch, unbind, flush,
  resched, expire, expire_msg, erase_node, expire_queue, start, next,
}
use memqueue.Memqueue.Steps.Kept.{
  same_result, connect-Inv, unbind-Inv, flush-Inv, retain-Inv, release-Inv, bind-Inv, fetch-Inv,
}
use memqueue.Memqueue.Steps.Announced.{refresh-Inv}
use memqueue.Memqueue.Steps.Expired.{
  msg_expiry-Inv, resched-Inv, expire_msgs_loop-Inv, expire_queue-Inv,
}

module _ (rb : RbTrees) where
  pub Step-Inv :
      {base : Ptr → ℕ} {s : Ins} {base' : Ptr → ℕ} {s' : Ins}
      → Step rb base s base' s'
      → Inv base s
      → Inv base' s'
  Step-Inv (create now a id absent e) v = create_made rb now a id _ v absent e
  Step-Inv (post now p q msecs body at room new e) v =
      let (_, run, out) = memqueue_msg_create-Notified rb now p q msecs body v at room new in
      same_result (Inv _) run e out.inv
  Step-Inv {base = base} (remove id p r named n e) v =
      let (q, at, _) = v.stored id p named in
      let (_, run, inv, _) = on_queue_delete_lem id p q v named at n in
      same_result (λ x. Inv (given_back p base) x.1) run e inv
  Step-Inv (retain r e) v = retain-Inv r _ _ e v
  Step-Inv (release r e) v = release-Inv r _ _ e v
  Step-Inv (connect timeout) v = connect-Inv timeout v
  Step-Inv (bind p c rev include_consumers e) v = bind-Inv p c rev include_consumers _ _ e v
  Step-Inv (join now p q id at n room unused e) v =
      refresh-Inv rb now p q id _ _ at room unused e n v
  Step-Inv (fetch c p rev latest n client e) v = fetch-Inv c p rev latest n _ _ e client v
  Step-Inv (unbind c e) v = unbind-Inv c _ _ e v
  Step-Inv (flush c e) v = flush-Inv c _ _ e v
  Step-Inv (resched now p e) v = resched-Inv rb now p _ _ e v
  Step-Inv (expire f now at e) v = expire_msgs_loop-Inv rb f now at _ _ e v
  Step-Inv {s = s} (expire_msg i r rest e) v =
      release-Inv r _ _ e (msg_expiry-Inv (set_objs i rest s.msg_expiry) s v)
  Step-Inv {s = s} (erase_node i) v = msg_expiry-Inv (rb.of_msgs.rb_erase i s.msg_expiry) s v
  Step-Inv (expire_queue i p rest n e) v = expire_queue-Inv _ p _ _ e n v

  -- In every state that the server comes to from its start, by creating, posting, deleting, taking
  -- and giving back references, connecting, binding, joining consumers, serving, unbinding and flushing
  -- clients, rescheduling queues, expiring messages and letting go of a queue that expired, in any
  -- order, as long as each operation returns, the state is in order. A creation has a name that the
  -- table does not have, a post and a joining a queue whose revision is below the largest int and a new
  -- number, a deletion, a joining and an expiry of a queue its creation's reference, and a client that
  -- is served is there.
  pub Reach-Inv : {base : Ptr → ℕ} {s : Ins} → Reach rb base s → Inv base s
  Reach-Inv start = memqueue_init-Inv
  Reach-Inv (next r step) = Step-Inv step (Reach-Inv r)
