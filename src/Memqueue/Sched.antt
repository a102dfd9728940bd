-- ===== src/Memqueue/Sched.antt =====
-- src/memqueue_expiry.c over the server's state: scheduling, rescheduling and the cleaner's sleep.
-- `now` is what `tick_diff_msecs(ins->birth, rdtsc())` returns: the clock is read by an instruction
-- and scaled by floating point, and is a parameter here.
pub mod Timeout
use memqueue.Base.{
  ℕ, ◌+◌, ◌-◌, ◌%◌, ◌^◌, Bool, true, false, List, [], ◌∷◌, Option, none, some, ltb, ◌==◌, ◌||◌,
  if◌then◌else◌, Run, ok, use_after_free, guard, deref, ◌>>=◌, ◌>>◌, ◌&&◌,
}
use mathlib.Core.Option
use memqueue.Expiry.{
  ExpiryNode, Tree, to_list, find_node, rb_search, rb_link, map_objs, insert_head, leftmost, RbTree,
}
use memqueue.Memqueue.Types.{
  Ptr, MsgRef, Queue, Consumer, Ins, RbTrees, is_there, update, store_queue,
}

-- What `void *obj` and `obj_type_t` say together.
pub data Obj : Type 0 where
  msg_type : MsgRef → Obj
  memqueue_type consumer_type : Ptr → Obj

-- One round of the loop in `sched_get_min_timeout`; `none` is its early return of 1.
unfoldable pub min_round : ℕ → Option ℕ → ℕ → Option ℕ
min_round t_diff none min = some min
min_round t_diff (some msecs) min =
    if ltb t_diff msecs
    then some (if ltb (msecs - t_diff) min || (min == 0) then msecs - t_diff else min)
    else none

abbrev pub first_deadline {ℓ} : {A : Type ℓ} → Tree A → Option ℕ
first_deadline t = Option.map (λ n. n.msecs) (leftmost t)

unfoldable pub min_timeout : ℕ → Option ℕ → Option ℕ → Option ℕ → ℕ
unfolding min_round
min_timeout t_diff a b c = elim (min_round t_diff a 0) [
  | none ↦ 1
  | some m ↦ elim (min_round t_diff b m) [
    | none ↦ 1
    | some m' ↦ elim (min_round t_diff c m') [ none ↦ 1 | some m'' ↦ m'' ]
  ]
]

-- 0 where nothing is scheduled.
unfoldable pub sched_get_min_timeout : ℕ → Ins → ℕ
unfolding min_timeout
sched_get_min_timeout now s =
    min_timeout (now % 2 ^ 32) (first_deadline s.msg_expiry) (first_deadline s.memqueue_expiry)
      (first_deadline s.consumer_expiry)

-- A tree with one more object, and the address of the node if a new one had to be made. Only then is
-- the object's `expiry_node` written.
unfoldable pub sched_obj {ℓ} :
    {A : Type ℓ} → RbTree A → Ptr → ℕ → A → Tree A → Run (Tree A × Option Ptr)
sched_obj rb fresh deadline a t = elim (rb_search t deadline) [
  | none ↦ do
    t' ← rb_link t (record { node_id = fresh; msecs = deadline; objs = a ∷ [] })
    ok (rb.insert_color fresh t', some fresh)
  | some n ↦ ok (insert_head n.node_id a t, none)
]

-- The lists of objects run through the objects. `LIST_INSERT_HEAD` writes to the object that was first,
-- and `LIST_REMOVE` to those before and after: `there` tells which are allocated. A message goes
-- with its last reference, of which its deadline has one, and not with its queue, so that this is asked
-- of queues and consumers only.
abbrev pub first_there : (Ptr → Bool) → List Ptr → Bool
first_there there [] = true
first_there there (x ∷ xs) = there x

abbrev pub head_there : (Ptr → Bool) → Option (ExpiryNode Ptr) → Bool
head_there there none = true
head_there there (some n) = first_there there n.objs

unfoldable pub near_there : (Ptr → Bool) → Ptr → List Ptr → Bool
near_there there p [] = true
near_there there p (x ∷ []) = true
near_there there p (x ∷ y ∷ ys) =
    let rest = near_there there p (y ∷ ys) in
    if x == p then there y else (if y == p then there x && first_there there ys else rest)

-- The object is in the list of one node at most.
unfoldable pub can_remove : (Ptr → Bool) → Ptr → List (ExpiryNode Ptr) → Bool
unfolding near_there
can_remove there p [] = true
can_remove there p (n ∷ ns) = near_there there p n.objs && can_remove there p ns

abbrev pub set_queue_node : Option Ptr → Queue → Queue
set_queue_node none q = q
set_queue_node (some n) q = record q { expiry_node = some n }

abbrev pub set_consumer_node : Option Ptr → Consumer → Consumer
set_consumer_node none c = c
set_consumer_node (some n) c = record c { expiry_node = some n }

module _ (rb : RbTrees) where
  unfoldable pub sched_in_tree : Obj → ℕ → Ins → Run Ins
  unfolding sched_obj
  sched_in_tree (msg_type r) deadline s = do
    (t, _) ← sched_obj rb.of_msgs s.next_ptr deadline r s.msg_expiry
    ok (record s { msg_expiry = t; next_ptr = s.next_ptr + 1 })
  sched_in_tree (memqueue_type p) deadline s = do
    guard (head_there (λ x. is_there (s.queues x)) (rb_search s.memqueue_expiry deadline))
        use_after_free
    (t, n) ← sched_obj rb.of_ptrs s.next_ptr deadline p s.memqueue_expiry
    q ← deref (s.queues p)
    ok (
        store_queue p (set_queue_node n q)
          (record s { memqueue_expiry = t; next_ptr = s.next_ptr + 1 }))
  sched_in_tree (consumer_type p) deadline s = do
    guard (head_there (λ x. is_there (s.consumers x)) (rb_search s.consumer_expiry deadline))
        use_after_free
    (t, n) ← sched_obj rb.of_ptrs s.next_ptr deadline p s.consumer_expiry
    c ← deref (s.consumers p)
    ok (record s {
      consumer_expiry = t;
      next_ptr = s.next_ptr + 1;
      consumers = update s.consumers p (some (set_consumer_node n c));
    })

  -- The cleaner is woken if it sleeps past the new deadline, or with nothing to wait for.
  unfoldable pub obj_sched_expire : ℕ → Obj → ℕ → Ins → Run Ins
  unfolding sched_in_tree
  obj_sched_expire now obj msecs s =
      let timeout = sched_get_min_timeout now s in
      let wake = (timeout == 0) || ltb msecs timeout in
      sched_in_tree obj ((now + msecs) % 2 ^ 32) (record s { signalled = s.signalled || wake })

  -- `LIST_REMOVE` of an object from the list that it is in.
  unfoldable pub remove_ptr : Ptr → List Ptr → List Ptr
  remove_ptr p [] = []
  remove_ptr p (x ∷ xs) = if x == p then xs else x ∷ remove_ptr p xs

  -- Whether the node went, with the tree that is left. A node that is gone already is a fault.
  unfoldable pub possibly_node_free : Ptr → Tree Ptr → Run (Bool × Tree Ptr)
  possibly_node_free i t = do
    n ← deref (find_node i (to_list t))
    ok (elim n.objs [ [] ↦ (true, rb.of_ptrs.rb_erase i t) | _ ∷ _ ↦ (false, t) ])

  unfoldable pub memqueue_resched : ℕ → Ptr → Ins → Run Ins
  unfolding obj_sched_expire possibly_node_free remove_ptr can_remove
  memqueue_resched now p s = do
    q ← deref (s.queues p)
    elim q.expiry_node [
      | none ↦ ok s
      | some i ↦ do
        guard (can_remove (λ x. is_there (s.queues x)) p (to_list s.memqueue_expiry)) use_after_free
        (freed, t) ← possibly_node_free i (map_objs (λ n. remove_ptr p n.objs) s.memqueue_expiry)
        let q' = record q { expiry_node = if freed then none else some i }
        obj_sched_expire now (memqueue_type p) q.expiry
            (store_queue p q' (record s { memqueue_expiry = t }))
    ]

  unfoldable pub consumer_resched : ℕ → Ptr → Ins → Run Ins
  unfolding obj_sched_expire possibly_node_free remove_ptr can_remove
  consumer_resched now p s = do
    c ← deref (s.consumers p)
    elim c.expiry_node [
      | none ↦ ok s
      | some i ↦ do
        guard (can_remove (λ x. is_there (s.consumers x)) p (to_list s.consumer_expiry))
            use_after_free
        (freed, t) ← possibly_node_free i (map_objs (λ n. remove_ptr p n.objs) s.consumer_expiry)
        let c' = record c { expiry_node = if freed then none else some i }
        obj_sched_expire now (consumer_type p) c.expiry
            (record s { consumer_expiry = t; consumers = update s.consumers p (some c') })
    ]
