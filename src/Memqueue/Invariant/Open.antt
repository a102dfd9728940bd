-- ===== src/Memqueue/Invariant/Open.antt =====
-- The server when it starts, and a new queue: `memqueue_init` and `memqueue_create` of
-- src/memqueue.c.
use memqueue.Base.{
  Run, >>=-eq-ok, ok-injective, ℕ, ◌+◌, ◌≤◌, ◌≡◌, refl, ap, sym, ◌∙◌, [], Option, none, some, Text,
  str_eq, str_eq_refl, eq_of_str_eq, ◌==◌, Bool-cases, if◌then◌else◌, inl, inr, arith, ok,
}
use memqueue.Hash.{h_get, h_init, h_insert}
use memqueue.Hash.Lookup.{h_init-IsValid, h_insert-IsValid, h_insert_lem, h_get-h_init}
use memqueue.Memqueue.Types.{Ptr, Queue, Ins, RbTrees, update, store_queue}
use memqueue.Memqueue.Refs.{memqueue_retain}
use memqueue.Memqueue.Refs.Lists.{refs}
use memqueue.Memqueue.Refs.Counts.{QueueOk}
use memqueue.Memqueue.Sched.{memqueue_type, obj_sched_expire, set_queue_node}
use memqueue.Memqueue.Args.{CreateArgs}
use memqueue.Memqueue.Handlers.{memqueue_init, new_queue, memqueue_create}
use memqueue.Memqueue.Invariant.Deadlines.{QueuesThere, QueuesThere-kept}
use memqueue.Memqueue.Invariant.Timed.{Timed, sched_queue_total, sched_queue_made}
use mathlib.Core.Path.{subst}
use memqueue.Memqueue.Invariant.{Live, Inv, update_at, update-update}

-- The counts of references with one for a new queue.
abbrev pub with_queue : Ptr → (Ptr → ℕ) → Ptr → ℕ
with_queue p base = λ a. if a == p then 1 else base a

-- `s'` is `s` with the queue `q` at the next address, under its name.
record Opened (s : Ins) (q : Queue) (s' : Ins) : Type 0 where
  queues : s'.queues ≡ update s.queues s.next_ptr (some q)
  clis : s'.clis ≡ s.clis
  store : s'.queue_store ≡ (h_insert s.queue_store q.q_id s.next_ptr).0
  next_ptr : s.next_ptr + 1 ≤ s'.next_ptr

module _ {base : Ptr → ℕ} {s : Ins} (v : Inv base s) (q : Queue)
    (absent : h_get s.queue_store q.q_id ≡ none) where
  Opened-stored :
      (id : Text) (a : Ptr)
      → h_get (h_insert s.queue_store q.q_id s.next_ptr).0 id ≡ some a
      → (x : Queue) × (update s.queues s.next_ptr (some q) a ≡ some x) × (x.q_id ≡ id)
  Opened-stored id a e =
      let (_, g) = h_insert_lem s.queue_store v.table q.q_id s.next_ptr id in
      elim (Bool-cases (str_eq id q.q_id)) [
        | inl t ↦ (q, ground (arith, e, g, t, absent), sym (eq_of_str_eq id q.q_id t))
        | inr f ↦
            let (x, there, named) = v.stored id a (rw (g, f) at e) in
            (x, ground (arith, there, v.fresh s.next_ptr), named)
      ]

  Opened-Inv :
      (s' : Ins)
      → Opened s q s'
      → QueueOk 1 q
      → q.memqueue_binders ≡ []
      → Inv (with_queue s.next_ptr base) s'
  Opened-Inv s' o k b =
      let alone : Live s.clis q.memqueue_binders = rw b tt in
      record {
        queue = rw o.queues (λ a x e. ground (arith, e, v.queue a x, k));
        live = rw (o.queues, o.clis) (λ a x e. ground (arith, e, v.live a x, alone));
        fresh = rw (o.queues, o.clis) (λ a l. ground (arith, l, o.next_ptr, v.fresh a));
        table = rw o.store (h_insert-IsValid s.queue_store v.table q.q_id s.next_ptr);
        stored = rw (o.store, o.queues) Opened-stored;
      }

module _ (rb : RbTrees) where
  -- The queue with its first reference.
  abbrev opened : CreateArgs → Text → Option Ptr → Queue
  opened a id n =
      let q = set_queue_node n (new_queue a id) in record q { ref_count = q.ref_count + 1 }

  opened_facts :
      (a : CreateArgs) (id : Text) (n : Option Ptr)
      → QueueOk 1 (opened a id n)
        × ((opened a id n).q_id ≡ id)
        × ((opened a id n).memqueue_binders ≡ [])
  unfolding refs h_init
  opened_facts a id none = (
    record {
      counted = refl;
      held = refl;
      revs = omega arith;
      table = h_init-IsValid 128 (omega arith);
      idle = refl;
    },
    refl,
    refl,
  )
  opened_facts a id (some n) = (
    record {
      counted = refl;
      held = refl;
      revs = omega arith;
      table = h_init-IsValid 128 (omega arith);
      idle = refl;
    },
    refl,
    refl,
  )

  -- The state once the queue is allocated, and its scheduling.
  abbrev allocated : CreateArgs → Text → Ins → Ins
  allocated a id s =
      store_queue s.next_ptr (new_queue a id) (record s { next_ptr = s.next_ptr + 1 })

  abbrev scheduling : ℕ → CreateArgs → Text → Ins → Run Ins
  scheduling now a id s =
      if a.expiry == 0
      then ok (allocated a id s)
      else obj_sched_expire rb now (memqueue_type s.next_ptr) a.expiry (allocated a id s)

  as_before :
      (p : Ptr) (q : Queue) (s : Ins) → s.queues ≡ update s.queues p (some q) → Timed p q s s
  as_before p q s same = record {
    node = none;
    queues = same;
    clis = refl;
    store = refl;
    next_ptr = omega arith;
  }

  sched_if_expiry :
      (now : ℕ) (p : Ptr) (q : Queue) (msecs : ℕ) (s : Ins)
      → s.queues p ≡ some q
      → s.queues ≡ update s.queues p (some q)
      → QueuesThere s.queues s.memqueue_expiry
      → (s' : Ins) × ((if msecs == 0
            then ok s
            else obj_sched_expire rb now (memqueue_type p) msecs s)
          ≡ ok s')
        × Timed p q s s'
  sched_if_expiry now p q msecs s at same there = elim (Bool-cases (msecs == 0)) [
    | inl e ↦ rw e (s, refl, as_before p q s same)
    | inr e ↦ rw e (sched_queue_total rb now p q msecs s at there)
  ]

  -- A creation whose scheduling returned returns.
  create_rest :
      {base : Ptr → ℕ} {s : Ins} (now : ℕ) (a : CreateArgs) (id : Text) (s₂ : Ins)
      → Inv base s
      → h_get s.queue_store id ≡ none
      → scheduling now a id s ≡ ok s₂
      → Timed s.next_ptr (new_queue a id) (allocated a id s) s₂
      → (s' : Ins) × (memqueue_create rb now a id s ≡ ok s')
        × Inv (with_queue s.next_ptr base) s'
        × (h_get s'.queue_store id ≡ some s.next_ptr)
  unfolding memqueue_create memqueue_retain
  create_rest {base} {s} now a id s₂ v absent run t =
      let p = s.next_ptr in
      let q = new_queue a id in
      let s₁ : Ins = allocated a id s in
      let q₃ = opened a id t.node in
      let (good, named, alone) = opened_facts a id t.node in
      let name = sym named in
      let (_, got) = h_insert_lem s.queue_store v.table id p id in
      let at₂ : s₂.queues p ≡ some (set_queue_node t.node q) =
        ap (λ f. f p) t.queues ∙ update_at s₁.queues p (some (set_queue_node t.node q)) in
      let s₄ : Ins = record (store_queue p q₃ s₂) {
        queue_store = (h_insert s₂.queue_store id p).0;
      } in
      let o : Opened s q₃ s₄ = record {
        queues =
            ap (λ f. update f p (some q₃)) t.queues
            ∙ update-update s₁.queues p (some (set_queue_node t.node q)) (some q₃)
            ∙ update-update s.queues p (some q) (some q₃);
        clis = t.clis;
        store = λ i. (h_insert (t.store i) (name i) p).0;
        next_ptr = t.next_ptr;
      } in
      (
        s₄,
        rw (run, at₂) refl,
        Opened-Inv v q₃ (rw named absent) s₄ o good alone,
        ap (λ h. h_get (h_insert h id p).0 id) t.store ∙ got ∙ rw (str_eq_refl id, absent) refl,
      )

  -- In a state in order whose table does not have the name and in which every queue whose deadline is in
  -- the tree is there, a queue can be created, with or without an expiry: nothing faults, the name leads
  -- to the new queue, and the state is in order afterwards, the new queue having the one reference of its
  -- creation.
  pub memqueue_create-Inv :
      {base : Ptr → ℕ} {s : Ins} (now : ℕ) (a : CreateArgs) (id : Text)
      → Inv base s
      → h_get s.queue_store id ≡ none
      → QueuesThere s.queues s.memqueue_expiry
      → (s' : Ins) × (memqueue_create rb now a id s ≡ ok s')
        × Inv (with_queue s.next_ptr base) s'
        × (h_get s'.queue_store id ≡ some s.next_ptr)
  memqueue_create-Inv {base} {s} now a id v absent there =
      let p = s.next_ptr in
      let q = new_queue a id in
      let s₁ : Ins = allocated a id s in
      let at = update_at s.queues p (some q) in
      let (s₂, run, t) =
        sched_if_expiry now p q a.expiry s₁ at (sym (update-update s.queues p (some q) (some q)))
          (QueuesThere-kept s.queues s₁.queues s.memqueue_expiry p q (λ x n. rw n refl) at there) in
      create_rest now a id s₂ v absent run t

  -- A creation that returned.
  pub create_made :
      {base : Ptr → ℕ} {s : Ins} (now : ℕ) (a : CreateArgs) (id : Text) (s' : Ins)
      → Inv base s
      → h_get s.queue_store id ≡ none
      → memqueue_create rb now a id s ≡ ok s'
      → Inv (with_queue s.next_ptr base) s'
  unfolding memqueue_create
  create_made {base} {s} now a id s' v absent e =
      let p = s.next_ptr in
      let q = new_queue a id in
      let s₁ : Ins = allocated a id s in
      let same = sym (update-update s.queues p (some q) (some q)) in
      let (s₂, run, _) = >>=-eq-ok (scheduling now a id s) _ e in
      let t : Timed p q s₁ s₂ = elim (Bool-cases (a.expiry == 0)) [
        | inl never ↦ subst (Timed p q s₁) (ok-injective (rw never at run)) (as_before p q s₁ same)
        | inr timed ↦
            sched_queue_made rb now p q a.expiry s₁ s₂ (update_at s.queues p (some q))
              (rw timed at run)
      ] in
      let (_, whole, inv, _) = create_rest now a id s₂ v absent run t in
      subst (Inv (with_queue p base)) (ok-injective (sym whole ∙ e)) inv

-- The server is in order when it starts, with no reference of any queue.
pub memqueue_init-Inv : Inv (λ _. 0) memqueue_init
unfolding memqueue_init
memqueue_init-Inv = record {
  queue = λ p q e. absurd cc;
  live = λ p q e. absurd cc;
  fresh = λ p l. (refl, refl);
  table = h_init-IsValid 128 (omega arith);
  stored = λ id p e. absurd (ground (arith, e, h_get-h_init {V = Ptr} 128 id));
}
