-- ===== src/Memqueue/Invariant/Delete.antt =====
-- DELETE: `on_queue_delete` of src/memqueue.c, once its arguments are read.
use mathlib.Core.Path.{subst}
use memqueue.Base.{
  ==_iff, ℕ, ◌-◌, ◌≡◌, ◌≢◌, refl, sym, ◌∙◌, none, some, Text, ◌==◌, Bool-cases, if◌then◌else◌, inl,
  inr, arith, ok, ap, true, str_eq_refl, false,
}
use memqueue.Hash.{h_get, h_remove}
use memqueue.Hash.Remove.{h_remove_lem}
use memqueue.Memqueue.Types.{Ptr, Queue, Ins, store_queue}
use memqueue.Memqueue.Refs.{memqueue_release, drop_queue_ref}
use memqueue.Memqueue.Refs.Counts.{QueueOk}
use memqueue.Memqueue.Respond.{memqueue_respond, deleted}
use memqueue.Memqueue.Handlers.{on_queue_delete}
use memqueue.Memqueue.Invariant.{Live, Inv, ==_refl, update_at}
use memqueue.Memqueue.Invariant.Release.{drop_queue_ref_lem, drop_queue_ref-store}

-- The references that no message and no consumer holds, once one of the queue's is given back.
abbrev pub given_back : Ptr → (Ptr → ℕ) → Ptr → ℕ
given_back p base a = if a == p then base p - 1 else base a

-- A queue is replaced by one in order with another count of its creation's references.
pub rebased-Inv :
    {base base' : Ptr → ℕ} {s : Ins} (p : Ptr) (q q' : Queue)
    → Inv base s
    → s.queues p ≡ some q
    → ((a : Ptr) → (a == p) ≡ false → base' a ≡ base a)
    → QueueOk (base' p) q'
    → q'.memqueue_binders ≡ q.memqueue_binders
    → q'.q_id ≡ q.q_id
    → Inv base' (store_queue p q' s)
rebased-Inv {base} {base'} {s} p q q' v at others good binders named =
    let live' : Live s.clis q'.memqueue_binders = rw binders (v.live p q at) in
    record {
      queue = λ a x e. elim (Bool-cases (a == p)) [
        | inl hit ↦
            let same : q' ≡ x = ground (arith, e, hit) in
            rw ((==_iff a p).0 hit) (subst (QueueOk (base' p)) same good)
        | inr miss ↦ rw (others a miss) (v.queue a x (rw miss at e))
      ];
      live = λ a x e. ground (arith, v.live a x, live');
      fresh = λ a l. ground (arith, v.fresh a l, v.fresh p);
      table = v.table;
      stored = λ id a e.
          let (x, there, called) = v.stored id a e in
          elim (Bool-cases (a == p)) [
            | inl hit ↦ (q', rw hit, ground (arith, there, called, named))
            | inr miss ↦ (x, rw miss there, called)
          ];
    }

-- A reference that is given back, where the queue has its creation's.
pub drop_base :
    {base : Ptr → ℕ} {s : Ins} (p : Ptr) (q : Queue)
    → Inv base s
    → s.queues p ≡ some q
    → base p ≢ 0
    → (s' : Ins) × (drop_queue_ref p q s ≡ ok s')
      × Inv (given_back p base) s'
      × (s'.queue_store
          ≡ (if q.ref_count - 1 == 0 then (h_remove s.queue_store q.q_id).0 else s.queue_store))
drop_base {base} {s} p q v at n =
    let k = v.queue p q at in
    let q' = record q { ref_count = q.ref_count - 1 } in
    let good : QueueOk (base p - 1) q' = record {
      counted = k.counted;
      held = omega (arith, k.held, n);
      revs = k.revs;
      table = k.table;
      idle = k.idle;
    } in
    let (s', run, inv, store) =
      drop_queue_ref_lem p q' q
        (rebased-Inv p q q' v at (λ a miss. rw miss refl) (rw (==_refl p) good) refl refl)
        (update_at s.queues p (some q')) refl (rw (==_refl p) good)
        (λ z. omega (arith, z, k.held, n)) (v.live p q at) in
    (s', sym (drop_queue_ref-store p q q' s) ∙ run, inv, store)

gone :
    {base : Ptr → ℕ} (s : Ins) (q : Queue) (id : Text) (p : Ptr)
    → q.q_id ≡ id
    → Inv base s
    → h_get s.queue_store id ≡ some p
    → q.ref_count ≢ 0
    → h_get (if q.ref_count - 1 == 0 then (h_remove s.queue_store q.q_id).0 else s.queue_store) id
      ≡ (if q.ref_count == 1 then none else some p)
gone s q id p same v named n =
    let (r, _) = h_remove_lem s.queue_store v.table q.q_id id in
    elim (Bool-cases (q.ref_count == 1)) [
      | inl last ↦
          let e : (q.ref_count - 1 == 0) ≡ true = ground (arith, last) in
          rw (last, e) (r ∙ rw (same, str_eq_refl id))
      | inr more ↦
          let e : (q.ref_count - 1 == 0) ≡ false = ground (arith, more, n) in rw (more, e) named
    ]

pub delete_run :
    (id : Text) (p : Ptr) (q : Queue) (s s' : Ins)
    → h_get s.queue_store id ≡ some p
    → s.queues p ≡ some q
    → drop_queue_ref p q s ≡ ok s'
    → on_queue_delete id s ≡ ok (memqueue_respond deleted, s')
unfolding on_queue_delete memqueue_release
delete_run id p q s s' named at run = rw (on_queue_delete, named, memqueue_release, at, run) refl

-- In a state in order, a DELETE of a queue that has its creation's reference answers that it is
-- deleted and gives one reference back; the state is in order afterwards, the creation's reference
-- counting one less, and the name is gone only if the reference was the queue's last.
pub on_queue_delete_lem :
    {base : Ptr → ℕ} {s : Ins} (id : Text) (p : Ptr) (q : Queue)
    → Inv base s
    → h_get s.queue_store id ≡ some p
    → s.queues p ≡ some q
    → base p ≢ 0
    → (s' : Ins) × (on_queue_delete id s ≡ ok (memqueue_respond deleted, s'))
      × Inv (given_back p base) s'
      × (h_get s'.queue_store id ≡ (if q.ref_count == 1 then none else some p))
on_queue_delete_lem {base} {s} id p q v named at n =
    let k = v.queue p q at in
    let (x, there, called) = v.stored id p named in
    let same : q.q_id ≡ id = ground (arith, at, there, called) in
    let (s', run, inv, store) = drop_base p q v at n in
    (
      s',
      delete_run id p q s s' named at run,
      inv,
      ap (λ h. h_get h id) store ∙ gone s q id p same v named (λ z. omega (arith, z, k.held, n)),
    )
