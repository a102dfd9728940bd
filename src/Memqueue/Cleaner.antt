-- ===== src/Memqueue/Cleaner.antt =====
-- src/memqueue_expiry.c and src/memqueue.c: what the cleaner does when deadlines pass.
use memqueue.Base.{
  Bool, false, not, guard, use_after_free, ◌>>◌, ℕ, zero, suc, ◌%◌, ◌^◌, List, [], ◌∷◌, ◌++◌,
  Option, none, some, codes, length, leb, ◌==◌, if◌then◌else◌, Run, ok, fault, out_of_fuel, deref,
  ◌>>=◌,
}
use memqueue.Base.Int.{pos}
use memqueue.Hash.{h_remove}
use memqueue.Expiry.{Tree, leaf, node, to_list, find_node, map_objs}
use memqueue.Memqueue.Types.{Ptr, MsgRef, Ins, RbTrees, is_there, update, store_queue}
use memqueue.Memqueue.Refs.{find_msg, memqueue_release, memqueue_msg_release}
use memqueue.Memqueue.Message.{memqueue_msg_create}
use memqueue.Memqueue.Sched.{sched_get_min_timeout}

-- The address of a tree's root, and the `rb_left` of the node at an address.
abbrev pub root_id {ℓ} : {A : Type ℓ} → Tree A → Option Ptr
root_id leaf = none
root_id (node l n r) = some n.node_id

abbrev pub or_else {ℓ} : {A : Type ℓ} → Option A → Option A → Option A
or_else none b = b
or_else (some a) b = some a

unfoldable pub rb_left {ℓ} : {A : Type ℓ} → Ptr → Tree A → Option Ptr
rb_left i leaf = none
rb_left i (node l n r) = if n.node_id == i then root_id l else or_else (rb_left i l) (rb_left i r)

-- The objects that are left on a node of which the first has been taken off.
unfoldable pub set_objs {ℓ} : {A : Type ℓ} → Ptr → List A → Tree A → Tree A
set_objs i rest = map_objs (λ n. if n.node_id == i then rest else n.objs)

-- Whether a release of the message leaves it allocated.
abbrev pub msg_stays : MsgRef → Ins → Bool
msg_stays r s = elim (s.queues r.memqueue) [
  | none ↦ false
  | some q ↦ elim (find_msg r.msg_id q.msg_queue) [ none ↦ false | some m ↦ not (m.ref_count == 1) ]
]

-- Each object leaves the list of the node before it is let go of. Its `expiry_node` is written after
-- that, which is a fault where the object is freed.
unfoldable pub expire_msgs : Ptr → List MsgRef → Ins → Run Ins
unfolding set_objs
expire_msgs i [] s = ok s
expire_msgs i (r ∷ rest) s = do
  s' ← memqueue_msg_release r (record s { msg_expiry = set_objs i rest s.msg_expiry })
  guard (msg_stays r s) use_after_free
  expire_msgs i rest s'

-- `memqueue->expiry_node = NULL`, where the queue is still there to be written to; `expire_queues` faults
-- where it is not.
unfoldable pub clear_expiry_node : Ptr → Ins → Ins
clear_expiry_node p s = elim (s.queues p) [
  | none ↦ s
  | some q ↦ store_queue p (record q { expiry_node = none }) s
]

unfoldable pub expire_queues : Ptr → List Ptr → Ins → Run Ins
unfolding set_objs clear_expiry_node
expire_queues i [] s = ok s
expire_queues i (p ∷ rest) s = do
  s' ← memqueue_release p (record s { memqueue_expiry = set_objs i rest s.memqueue_expiry })
  guard (is_there (s'.queues p)) use_after_free
  expire_queues i rest (clear_expiry_node p s')

unfoldable pub memqueue_free_consumer : Ptr → Ins → Run Ins
memqueue_free_consumer c s = do
  consumer ← deref (s.consumers c)
  q ← deref (s.queues consumer.memqueue)
  let q' = record q { consumers = (h_remove q.consumers consumer.consumer_id).0 }
  ok (store_queue consumer.memqueue q' (record s { consumers = update s.consumers c none }))

module _ (rb : RbTrees) where
  unfoldable pub consumer_expired : ℕ → Ptr → Ins → Run Ins
  unfolding memqueue_free_consumer
  consumer_expired now c s = do
    consumer ← deref (s.consumers c)
    s₁ ←
        memqueue_msg_create rb now consumer.memqueue (pos 2000)
          (consumer.consumer_id ++ codes ":expired") s
    s₂ ← memqueue_release consumer.memqueue s₁
    memqueue_free_consumer c s₂

  unfoldable pub expire_consumers : ℕ → Ptr → List Ptr → Ins → Run Ins
  unfolding set_objs consumer_expired
  expire_consumers now i [] s = ok s
  expire_consumers now i (c ∷ rest) s = do
    s' ← consumer_expired now c (record s { consumer_expiry = set_objs i rest s.consumer_expiry })
    guard (is_there (s'.consumers c)) use_after_free
    expire_consumers now i rest s'

  -- The walk down the left side of a tree. The node to go on with is read before anything is freed.
  -- `possibly_node_free` always frees, since the loop has emptied the node.
  unfoldable pub expire_msgs_loop : ℕ → ℕ → Option Ptr → Ins → Run Ins
  unfolding rb_left
  expire_msgs_loop f now none s = ok s
  expire_msgs_loop zero now (some i) s = fault out_of_fuel
  expire_msgs_loop (suc f) now (some i) s = do
    n ← deref (find_node i (to_list s.msg_expiry))
    let next = rb_left i s.msg_expiry
    s' ←
        (if leb n.msecs now
          then (do
            s₁ ← expire_msgs i n.objs s
            ok (record s₁ { msg_expiry = rb.of_msgs.rb_erase i s₁.msg_expiry }))
          else ok s)
    expire_msgs_loop f now next s'

  unfoldable pub expire_queues_loop : ℕ → ℕ → Option Ptr → Ins → Run Ins
  unfolding rb_left
  expire_queues_loop f now none s = ok s
  expire_queues_loop zero now (some i) s = fault out_of_fuel
  expire_queues_loop (suc f) now (some i) s = do
    n ← deref (find_node i (to_list s.memqueue_expiry))
    let next = rb_left i s.memqueue_expiry
    s' ←
        (if leb n.msecs now
          then (do
            s₁ ← expire_queues i n.objs s
            ok (record s₁ { memqueue_expiry = rb.of_ptrs.rb_erase i s₁.memqueue_expiry }))
          else ok s)
    expire_queues_loop f now next s'

  unfoldable pub expire_consumers_loop : ℕ → ℕ → Option Ptr → Ins → Run Ins
  unfolding rb_left
  expire_consumers_loop f now none s = ok s
  expire_consumers_loop zero now (some i) s = fault out_of_fuel
  expire_consumers_loop (suc f) now (some i) s = do
    n ← deref (find_node i (to_list s.consumer_expiry))
    let next = rb_left i s.consumer_expiry
    s' ←
        (if leb n.msecs (now % 2 ^ 32)
          then (do
            s₁ ← expire_consumers now i n.objs s
            ok (record s₁ { consumer_expiry = rb.of_ptrs.rb_erase i s₁.consumer_expiry }))
          else ok s)
    expire_consumers_loop f now next s'

  -- `objs_expire` for each type, with a round for each node of its tree, and what the cleaner's loop
  -- is to sleep then.
  unfoldable pub cleaner_round : ℕ → Ins → Run (ℕ × Ins)
  unfolding expire_msgs_loop expire_queues_loop expire_consumers_loop
  cleaner_round now s = do
    let t_diff = now % 2 ^ 32
    s₁ ← expire_msgs_loop (length (to_list s.msg_expiry)) t_diff (root_id s.msg_expiry) s
    s₂ ←
        expire_queues_loop (length (to_list s₁.memqueue_expiry)) t_diff (root_id s₁.memqueue_expiry)
          s₁
    s₃ ←
        expire_consumers_loop (length (to_list s₂.consumer_expiry)) now (root_id s₂.consumer_expiry)
          s₂
    ok (sched_get_min_timeout now s₃, s₃)
