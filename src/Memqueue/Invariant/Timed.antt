-- ===== src/Memqueue/Invariant/Timed.antt =====
-- A queue that is scheduled: `obj_sched_expire` of src/memqueue_expiry.c.
use memqueue.Base.{
  ok-injective, fault, use_after_free, Bool-cases, ℕ, ◌+◌, ◌%◌, ◌^◌, ◌≤◌, ◌≡◌, refl, sym, ◌∙◌, ◌||◌,
  [], ◌∷◌, Option, none, some, true, ◌==◌, Option-cases, inl, inr, arith, ok, ltb,
}
use mathlib.Core.Path.{subst}
use memqueue.Expiry.{Tree, rb_search, insert_head}
use memqueue.Expiry.Search.{rb_link-total}
use memqueue.Memqueue.Types.{Ptr, Queue, Ins, RbTrees, is_there, update, store_queue}
use memqueue.Memqueue.Invariant.Deadlines.{QueuesThere, head_there_lem}
use memqueue.Memqueue.Sched.{
  memqueue_type, sched_obj, sched_in_tree, obj_sched_expire, sched_get_min_timeout, set_queue_node,
  head_there,
}

-- The state after a queue that is there was scheduled, or not: only its `expiry_node` may differ.
pub record Timed (p : Ptr) (q : Queue) (s s' : Ins) : Type 0 where
  pub node : Option Ptr
  pub queues : s'.queues ≡ update s.queues p (some (set_queue_node node q))
  pub clis : s'.clis ≡ s.clis
  pub store : s'.queue_store ≡ s.queue_store
  pub next_ptr : s.next_ptr ≤ s'.next_ptr

fault_lem : {s : Ins} → fault use_after_free ≡ ok s → ⊥
fault_lem e = cc

module _ (rb : RbTrees) where
  -- Where the first object of the deadline's list is there.
  sched_queue_runs :
      (now : ℕ) (p : Ptr) (q : Queue) (msecs : ℕ) (s : Ins)
      → s.queues p ≡ some q
      → head_there
          (λ x. is_there (s.queues x))
          (rb_search s.memqueue_expiry ((now + msecs) % 2 ^ 32))
        ≡ true
      → (s' : Ins) × (obj_sched_expire rb now (memqueue_type p) msecs s ≡ ok s') × Timed p q s s'
  unfolding obj_sched_expire sched_in_tree sched_obj
  sched_queue_runs now p q msecs s at head =
      let d = (now + msecs) % 2 ^ 32 in
      let timeout = sched_get_min_timeout now s in
      let wake = (timeout == 0) || ltb msecs timeout in
      let after : Tree Ptr → Option Ptr → Ins = λ t n.
        store_queue p (set_queue_node n q) (record s {
          memqueue_expiry = t;
          next_ptr = s.next_ptr + 1;
          signalled = s.signalled || wake;
        }) in
      let same : (t : Tree Ptr) (n : Option Ptr) → Timed p q s (after t n) = λ t n. record {
        node = n;
        queues = refl;
        clis = refl;
        store = refl;
        next_ptr = omega arith;
      } in
      elim (Option-cases (rb_search s.memqueue_expiry d)) [
        | inr (n, e) ↦
            let t = insert_head n.node_id p s.memqueue_expiry in
            (
              after t none,
              rw (obj_sched_expire, sched_in_tree, head, sched_obj, e, at) refl,
              same t none,
            )
        | inl e ↦
            let (t, run) =
              rb_link-total s.memqueue_expiry
                (record { node_id = s.next_ptr; msecs = d; objs = p ∷ [] }) e in
            let t' = rb.of_ptrs.insert_color s.next_ptr t in
            (
              after t' (some s.next_ptr),
              rw (obj_sched_expire, sched_in_tree, head, sched_obj, e, run, at) refl,
              same t' (some s.next_ptr),
            )
      ]

  -- A queue can be scheduled where the queues in the tree are there.
  pub sched_queue_total :
      (now : ℕ) (p : Ptr) (q : Queue) (msecs : ℕ) (s : Ins)
      → s.queues p ≡ some q
      → QueuesThere s.queues s.memqueue_expiry
      → (s' : Ins) × (obj_sched_expire rb now (memqueue_type p) msecs s ≡ ok s') × Timed p q s s'
  sched_queue_total now p q msecs s at there =
      sched_queue_runs now p q msecs s at (head_there_lem _ s.memqueue_expiry _ there)

  pub sched_queue_made :
      (now : ℕ) (p : Ptr) (q : Queue) (msecs : ℕ) (s s' : Ins)
      → s.queues p ≡ some q
      → obj_sched_expire rb now (memqueue_type p) msecs s ≡ ok s'
      → Timed p q s s'
  unfolding obj_sched_expire sched_in_tree
  sched_queue_made now p q msecs s s' at e =
      let head =
        head_there (λ x. is_there (s.queues x))
          (rb_search s.memqueue_expiry ((now + msecs) % 2 ^ 32)) in
      elim (Bool-cases head) [
        | inl here ↦
            let (s₁, run, t) = sched_queue_runs now p q msecs s at here in
            subst (Timed p q s) (ok-injective (sym run ∙ e)) t
        | inr gone ↦ absurd (fault_lem (rw (obj_sched_expire, sched_in_tree, gone) at e))
      ]
