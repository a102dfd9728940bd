-- ===== src/Memqueue/Steps/Joined.antt =====
-- `memqueue_refresh_consumer` of src/memqueue.c, once it returned.
use mathlib.Core.Path.{subst}
use memqueue.Base.{
  >>-guard, use_after_free, ℕ, ◌+◌, ◌≤◌, ◌≡◌, refl, ap, sym, ◌∙◌, ◌⊎◌, ◌++◌, Option, none, some,
  Text, codes, if◌then◌else◌, Option-cases, inl, inr, arith, ok, deref, ◌>>=◌, >>=-eq-ok,
  ok-injective, Run, ◌%◌, ◌^◌,
}
use memqueue.Base.Int.{pos}
use memqueue.Hash.{h_get, h_insert}
use memqueue.Expiry.{map_objs, to_list, rb_search}
use memqueue.Memqueue.Types.{Ptr, Queue, Consumer, Ins, RbTrees, is_there, update, store_queue}
use memqueue.Memqueue.Refs.{memqueue_retain}
use memqueue.Memqueue.Sched.{
  head_there, can_remove, consumer_type, sched_obj, sched_in_tree, obj_sched_expire,
  possibly_node_free, remove_ptr, consumer_resched,
}
use memqueue.Memqueue.Message.{memqueue_msg_create}
use memqueue.Memqueue.Poll.{memqueue_refresh_consumer}

-- What is not of the consumers is as before.
pub record Quiet (s s' : Ins) : Type 0 where
  pub queues : s'.queues ≡ s.queues
  pub clis : s'.clis ≡ s.clis
  pub store : s'.queue_store ≡ s.queue_store
  pub next_ptr : s.next_ptr ≤ s'.next_ptr

deref_bind :
    (o : Option Queue) (q : Queue) (f : Queue → Run Ins) → o ≡ some q → (deref o >>= f) ≡ f q
deref_bind o q f at = rw at refl

-- A queue with one consumer more.
abbrev pub with_consumer : Text → Ptr → Queue → Queue
with_consumer id c q = record q { consumers = (h_insert q.consumers id c).0 }

-- The state in which a new consumer is announced.
abbrev pub joining : Text → Ptr → Queue → Ins → Ins
joining id p q s =
    let c = s.next_ptr in
    let consumer : Consumer = record {
      consumer_id = id;
      expiry = q.consumer_expiry;
      expiry_node = none;
      memqueue = p;
    } in
    store_queue p (with_consumer id c q)
      (record s { consumers = update s.consumers c (some consumer); next_ptr = c + 1 })

module _ (rb : RbTrees) where
  sched_consumer-Quiet :
      (now : ℕ) (c : Ptr) (msecs : ℕ) (s s' : Ins)
      → obj_sched_expire rb now (consumer_type c) msecs s ≡ ok s'
      → Quiet s s'
  unfolding obj_sched_expire sched_in_tree
  sched_consumer-Quiet now c msecs s s' e =
      let rest₀ =
        >>-guard
          (head_there (λ y. is_there (s.consumers y))
            (rb_search s.consumer_expiry ((now + msecs) % 2 ^ 32)))
          use_after_free _ e in
      let (_, _, rest) =
        >>=-eq-ok (sched_obj rb.of_ptrs s.next_ptr ((now + msecs) % 2 ^ 32) c s.consumer_expiry) _
          rest₀ in
      let (_, _, done) = >>=-eq-ok (deref (s.consumers c)) _ rest in
      let same = ok-injective done in
      record {
        queues = sym (ap (λ x. x.queues) same);
        clis = sym (ap (λ x. x.clis) same);
        store = sym (ap (λ x. x.queue_store) same);
        next_ptr = omega (arith, ap (λ x. x.next_ptr) same);
      }

  consumer_resched-Quiet :
      (now : ℕ) (c : Ptr) (s s' : Ins) → consumer_resched rb now c s ≡ ok s' → Quiet s s'
  unfolding consumer_resched
  consumer_resched-Quiet now c s s' e =
      let (x, there, rest) = >>=-eq-ok (deref (s.consumers c)) _ e in
      elim (Option-cases x.expiry_node) [
        | inl off ↦
            let same : s ≡ s' = ok-injective (rw off at rest) in
            subst (Quiet s) same
              (record { queues = refl; clis = refl; store = refl; next_ptr = omega arith })
        | inr (i, on) ↦
            let rest₁ =
              >>-guard (can_remove (λ y. is_there (s.consumers y)) c (to_list s.consumer_expiry))
                use_after_free _ (rw on at rest) in
            let ((freed, t), _, sched) =
              >>=-eq-ok
                (possibly_node_free rb i (map_objs (λ n. remove_ptr rb c n.objs) s.consumer_expiry))
                _ rest₁ in
            let x' : Consumer = record x { expiry_node = if freed then none else some i } in
            let s₁ : Ins = record s {
              consumer_expiry = t;
              consumers = update s.consumers c (some x');
            } in
            let q = sched_consumer-Quiet now c x.expiry s₁ s' sched in
            record { queues = q.queues; clis = q.clis; store = q.store; next_ptr = q.next_ptr }
      ]

  -- The parts of the announcement of a new consumer.
  pub record Joined (now : ℕ) (p : Ptr) (id : Text) (q : Queue) (s s' : Ins) : Type 0 where
    pub new : h_get q.consumers id ≡ none
    pub announced : Ins
    pub retained : Ins
    pub post :
        memqueue_msg_create rb now p (pos 2000) (id ++ codes ":joined") (joining id p q s)
        ≡ ok announced
    pub retain : memqueue_retain p announced ≡ ok retained
    pub quiet : Quiet retained s'

  pub refresh_parts :
      (now : ℕ) (p : Ptr) (q : Queue) (id : Text) (s s' : Ins)
      → s.queues p ≡ some q
      → memqueue_refresh_consumer rb now p id s ≡ ok s'
      → ((c : Ptr) × (h_get q.consumers id ≡ some c) × Quiet s s') ⊎ Joined now p id q s s'
  unfolding memqueue_refresh_consumer
  refresh_parts now p q id s s' at e = elim (Option-cases (h_get q.consumers id)) [
    | inr (c, known) ↦ inl (
      c,
      known,
      consumer_resched-Quiet now c s s' (rw known at (sym (deref_bind (s.queues p) q _ at) ∙ e)),
    )
    | inl new ↦
        let (s₂, post, e₁) =
          >>=-eq-ok
            (memqueue_msg_create rb now p (pos 2000) (id ++ codes ":joined") (joining id p q s)) _
            (rw new at (sym (deref_bind (s.queues p) q _ at) ∙ e)) in
        let (s₃, retain, e₂) = >>=-eq-ok (memqueue_retain p s₂) _ e₁ in
        inr (record {
          new = new;
          announced = s₂;
          retained = s₃;
          post = post;
          retain = retain;
          quiet = sched_consumer-Quiet now s.next_ptr q.consumer_expiry s₃ s' e₂;
        })
  ]
