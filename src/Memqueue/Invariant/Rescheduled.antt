-- ===== src/Memqueue/Invariant/Rescheduled.antt =====
-- A queue that is rescheduled: `memqueue_resched` of src/memqueue_expiry.c.
use memqueue.Base.{
  >>=-eq-ok, deref, deref-some, ok-injective, >>-guard, use_after_free, ℕ, ◌≤◌, ◌≡◌, refl, ap, ◌∙◌,
  List, [], ◌∷◌, Option, none, some, true, false, Option-cases, if◌then◌else◌, inl, inr, arith, ok,
  Bool, ◌⊎◌,
}
use mathlib.Core.Path.{subst}
use memqueue.Expiry.{ExpiryNode, Tree, to_list, find_node, map_objs}
use memqueue.Memqueue.Types.{Ptr, Queue, Ins, RbTrees, is_there, update, store_queue}
use memqueue.Memqueue.Invariant.Deadlines.{
  AllThere, QueuesThere, QueuesThere-kept, can_remove_lem, remove_ptr-AllThere, drop_node-AllThere,
  to_list-map_objs, find_node-with_objs,
}
use memqueue.Memqueue.Sched.{
  can_remove, set_queue_node, remove_ptr, possibly_node_free, memqueue_resched,
}
use memqueue.Memqueue.Refs.Counts.{QueueOk}
use memqueue.Memqueue.Invariant.{
  Inv, update_at, update-update, store_queue-Inv, same-Inv, update_self,
}
use memqueue.Memqueue.Invariant.Timed.{Timed, sched_queue_total, sched_queue_made}

-- The node that the queue names is in the tree, if it names one.
abbrev pub OnTree : Option Ptr → Tree Ptr → Type 0
OnTree none t = Unit
OnTree (some i) t = (n : ExpiryNode Ptr) × (find_node i (to_list t) ≡ some n)

-- What a rescheduling may change of the server: the queue's `expiry_node`, and the deadlines.
pub record Resched (p : Ptr) (q : Queue) (s s' : Ins) : Type 0 where
  pub node : Option Ptr
  pub queues : s'.queues ≡ update s.queues p (some (record q { expiry_node = node }))
  pub clis : s'.clis ≡ s.clis
  pub store : s'.queue_store ≡ s.queue_store
  pub next_ptr : s.next_ptr ≤ s'.next_ptr

objs_cases : (xs : List Ptr) → (xs ≡ []) ⊎ ((y : Ptr) × (ys : List Ptr) × (xs ≡ y ∷ ys))
objs_cases [] = inl refl
objs_cases (x ∷ xs) = inr (x, xs, refl)

set_queue_node_lem :
    (n : Option Ptr) (q : Queue)
    → (x : Option Ptr) × (set_queue_node n q ≡ record q { expiry_node = x })
set_queue_node_lem none q = (q.expiry_node, refl)
set_queue_node_lem (some i) q = (some i, refl)

module _ (rb : RbTrees) where
  possibly_node_free_total :
      (i : Ptr) (t : Tree Ptr)
      → OnTree (some i) t
      → (freed : Bool) × (t' : Tree Ptr) × (possibly_node_free rb i t ≡ ok (freed, t'))
  unfolding possibly_node_free
  possibly_node_free_total i t (n, e) = elim (objs_cases n.objs) [
    | inl c ↦ (true, rb.of_ptrs.rb_erase i t, rw (possibly_node_free, e, c) refl)
    | inr (x, xs, c) ↦ (false, t, rw (possibly_node_free, e, c) refl)
  ]

  Timed-Resched :
      (p : Ptr) (q : Queue) (n : Option Ptr) (t : Tree Ptr) (s s' : Ins)
      → Timed p
          (record q { expiry_node = n })
          (store_queue p (record q { expiry_node = n }) (record s { memqueue_expiry = t }))
          s'
      → Resched p q s s'
  Timed-Resched p q n t s s' timed =
      let q' : Queue = record q { expiry_node = n } in
      let (x, same) = set_queue_node_lem timed.node q' in
      record {
        node = x;
        queues =
            timed.queues
            ∙ update-update s.queues p (some q') (some (set_queue_node timed.node q'))
            ∙ ap (λ y. update s.queues p (some y)) same;
        clis = timed.clis;
        store = timed.store;
        next_ptr = timed.next_ptr;
      }

  as_before : (p : Ptr) (q : Queue) (s : Ins) → s.queues p ≡ some q → Resched p q s s
  as_before p q s at = record {
    node = q.expiry_node;
    queues = update_self s.queues p q at;
    clis = refl;
    store = refl;
    next_ptr = omega arith;
  }

  possibly_node_free-AllThere :
      (there : Ptr → Bool) (i : Ptr) (freed : Bool) (t t' : Tree Ptr)
      → possibly_node_free rb i t ≡ ok (freed, t')
      → AllThere there (to_list t)
      → AllThere there (to_list t')
  unfolding possibly_node_free
  possibly_node_free-AllThere there i freed t t' e a =
      let (n, _, rest) = >>=-eq-ok (deref (find_node i (to_list t))) _ e in
      elim (objs_cases n.objs) [
        | inl c ↦
            let same : t' ≡ rb.of_ptrs.rb_erase i t = cc (rw c at rest) in
            rw (same, rb.of_ptrs.rb_erase-to_list i t) (drop_node-AllThere there i (to_list t) a)
        | inr (x, xs, c) ↦
            let same : t ≡ t' = cc (rw c at rest) in subst (λ y. AllThere there (to_list y)) same a
      ]

  -- A queue whose node is in the tree, or that has none, can be rescheduled where the queues in the
  -- tree are there.
  pub memqueue_resched_total :
      (now : ℕ) (p : Ptr) (q : Queue) (s : Ins)
      → s.queues p ≡ some q
      → OnTree q.expiry_node s.memqueue_expiry
      → QueuesThere s.queues s.memqueue_expiry
      → (s' : Ins) × (memqueue_resched rb now p s ≡ ok s') × Resched p q s s'
  unfolding memqueue_resched
  memqueue_resched_total now p q s at on there = elim (Option-cases q.expiry_node) [
    | inl e ↦ (s, rw (memqueue_resched, at, e) refl, as_before p q s at)
    | inr (i, e) ↦
        let (n, found) = (rw e at on) in
        let f : ExpiryNode Ptr → List Ptr = λ x. remove_ptr rb p x.objs in
        let g : Ptr → Bool = λ x. is_there (s.queues x) in
        let free = can_remove_lem g p (to_list s.memqueue_expiry) there in
        let t₁ = map_objs f s.memqueue_expiry in
        let found₁ : find_node i (to_list t₁) ≡ some (record n { objs = f n }) =
          ap (find_node i) (to_list-map_objs f s.memqueue_expiry)
          ∙ find_node-with_objs f i n (to_list s.memqueue_expiry) found in
        let there₁ : AllThere g (to_list t₁) =
          rw (to_list-map_objs f s.memqueue_expiry)
            (remove_ptr-AllThere g rb p (to_list s.memqueue_expiry) there) in
        let (freed, t', run) = possibly_node_free_total i t₁ (record n { objs = f n }, found₁) in
        let q' : Queue = record q { expiry_node = if freed then none else some i } in
        let s₁ : Ins = store_queue p q' (record s { memqueue_expiry = t' }) in
        let at₁ : s₁.queues p ≡ some q' = update_at s.queues p (some q') in
        let (s', run', timed) = sched_queue_total rb now p q' q.expiry s₁ at₁ (
          QueuesThere-kept s.queues s₁.queues t' p q' (λ a m. rw m refl) at₁
            (possibly_node_free-AllThere g i freed t₁ t' run there₁)) in
        (
          s',
          rw (memqueue_resched, at, e, free, run) run',
          Timed-Resched p q (if freed then none else some i) t' s s' timed,
        )
  ]

  -- A rescheduling that returns.
  pub memqueue_resched_made :
      (now : ℕ) (p : Ptr) (s s' : Ins)
      → memqueue_resched rb now p s ≡ ok s'
      → (q : Queue) × (s.queues p ≡ some q) × Resched p q s s'
  unfolding memqueue_resched
  memqueue_resched_made now p s s' e =
      let (q, here, rest) = >>=-eq-ok (deref (s.queues p)) _ e in
      let at = deref-some _ q here in
      elim (Option-cases q.expiry_node) [
        | inl off ↦
            (q, at, subst (Resched p q s) (ok-injective (rw off at rest)) (as_before p q s at))
        | inr (i, on) ↦
            let rest₁ =
              >>-guard (can_remove (λ x. is_there (s.queues x)) p (to_list s.memqueue_expiry))
                use_after_free _ (rw on at rest) in
            let ((freed, t), _, run) =
              >>=-eq-ok
                (possibly_node_free rb i (map_objs (λ n. remove_ptr rb p n.objs) s.memqueue_expiry))
                _ rest₁ in
            let n = if freed then none else some i in
            let q' : Queue = record q { expiry_node = n } in
            let s₁ : Ins = store_queue p q' (record s { memqueue_expiry = t }) in
            let timed =
              sched_queue_made rb now p q' q.expiry s₁ s' (update_at s.queues p (some q')) run in
            (q, at, Timed-Resched p q n t s s' timed)
      ]

pub Resched-Inv :
    {base : Ptr → ℕ} {s s' : Ins} (p : Ptr) (q : Queue)
    → Inv base s
    → s.queues p ≡ some q
    → Resched p q s s'
    → Inv base s'
Resched-Inv {base} {s} p q v at r =
    let k = v.queue p q at in
    let q' : Queue = record q { expiry_node = r.node } in
    let k' : QueueOk (base p) q' = record {
      counted = k.counted;
      held = k.held;
      revs = k.revs;
      table = k.table;
      idle = k.idle;
    } in
    same-Inv (store_queue-Inv v p q q' at k' (v.live p q at) refl) r.queues r.clis r.store
      r.next_ptr
