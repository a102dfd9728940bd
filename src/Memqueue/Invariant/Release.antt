-- ===== src/Memqueue/Invariant/Release.antt =====
-- Giving a reference back: `memqueue_msg_release` and `memqueue_release` of src/memqueue.c.
use memqueue.Base.{
  ℕ, ◌-◌, ◌≡◌, ◌≢◌, refl, none, some, ◌==◌, ne_==, Bool-cases, if◌then◌else◌, inl, inr, arith, ok,
  fault, assertion, ◌>>=◌, Text, str_eq, str_eq_iff,
}
use memqueue.Hash.{h_get, h_remove, traverse}
use memqueue.Hash.Lookup.{IsValid}
use memqueue.Hash.Remove.{h_remove-IsValid, h_remove_lem}
use memqueue.Hash.Traverse.{traverse-order}
use memqueue.Memqueue.Types.{Ptr, Msg, Queue, Ins, update, store_queue}
use memqueue.Memqueue.Refs.{
  find_msg, free_items, free_queue, drop_queue_ref, memqueue_release, memqueue_msg_release,
}
use memqueue.Memqueue.Refs.Counts.{QueueOk, lowered, lowered_same, lowered-QueueOk}
use memqueue.Memqueue.Invariant.{
  Live, Inv, Keeps, ==_refl, store_queue-store_queue, update-update, store_queue-Inv,
}
use memqueue.Memqueue.Invariant.Retain.{ref_to}

module _ {base : Ptr → ℕ} {s : Ins} (v : Inv base s) (p : Ptr) (q q' : Queue)
    (at : s.queues p ≡ some q) (named : q'.q_id ≡ q.q_id) (valid : IsValid q'.consumers)
    (idle : q'.consumers.order_next ≡ none) where
  abbrev freed : Ins
  freed = record s {
    queue_store = (h_remove s.queue_store q'.q_id).0;
    consumers = free_items q'.consumers.order s.consumers;
    queues = update s.queues p none;
    orphans = λ a. if a == p then q'.memqueue_binders else s.orphans a;
  }

  freed_stored :
      (id : Text) (a : Ptr)
      → (if str_eq id q'.q_id then none else h_get s.queue_store id) ≡ some a
      → (x : Queue) × (update s.queues p none a ≡ some x) × (x.q_id ≡ id)
  freed_stored id a e = elim (Bool-cases (str_eq id q'.q_id)) [
    | inl same ↦ absurd (ground arith)
    | inr differs ↦
        let (x, there, called) = v.stored id a (rw differs at e) in
        elim (Bool-cases (a == p)) [
          | inl hit ↦ absurd (ground (arith, str_eq_iff id q'.q_id))
          | inr miss ↦ (x, rw miss there, called)
        ]
  ]

  -- A queue that goes leaves the store under its name.
  freed-Inv : Inv base freed
  freed-Inv = record {
    queue = λ a x e. ground (arith, v.queue a x);
    live = λ a x e. ground (arith, v.live a x);
    fresh = λ a l. ground (arith, v.fresh a l);
    table = h_remove-IsValid s.queue_store v.table q'.q_id;
    stored =
        λ id a e. freed_stored id a (rw (h_remove_lem s.queue_store v.table q'.q_id id).0 at e);
  }

  free_queue_lem :
      (s' : Ins) × (free_queue p q' s ≡ ok s')
      × Inv base s'
      × (s'.queue_store ≡ (h_remove s.queue_store q'.q_id).0)
  unfolding free_queue
  free_queue_lem = (freed, rw (traverse-order q'.consumers valid idle), freed-Inv, refl)

-- The reference that is given back is counted in the queue as it was. The name goes with the last one.
pub drop_queue_ref_lem :
    {base : Ptr → ℕ} {s : Ins} (p : Ptr) (q q' : Queue)
    → Inv base s
    → s.queues p ≡ some q
    → q'.q_id ≡ q.q_id
    → QueueOk (base p) (record q' { ref_count = q'.ref_count - 1 })
    → q'.ref_count ≢ 0
    → Live s.clis q'.memqueue_binders
    → (s' : Ins) × (drop_queue_ref p q' s ≡ ok s')
      × Inv base s'
      × (s'.queue_store
          ≡ (if q'.ref_count - 1 == 0 then (h_remove s.queue_store q'.q_id).0 else s.queue_store))
unfolding drop_queue_ref
drop_queue_ref_lem {base} {s} p q q' v at named ok' n l =
    rw (drop_queue_ref, ne_== q'.ref_count 0 n)
      (elim (Bool-cases (q'.ref_count - 1 == 0)) [
        | inl last ↦
            rw last (free_queue_lem v p q (record q' { ref_count = 0 }) at named ok'.table ok'.idle)
        | inr more ↦ rw more (
          store_queue p (record q' { ref_count = q'.ref_count - 1 }) s,
          refl,
          store_queue-Inv v p q _ at ok' l named,
          refl,
        )
      ])

drop_queue_ref-Keeps :
    {base : Ptr → ℕ} {s : Ins} (p : Ptr) (q q' : Queue)
    → Inv base s
    → s.queues p ≡ some q
    → q'.q_id ≡ q.q_id
    → QueueOk (base p) (record q' { ref_count = q'.ref_count - 1 })
    → q'.ref_count ≢ 0
    → Live s.clis q'.memqueue_binders
    → Keeps base (drop_queue_ref p q' s)
drop_queue_ref-Keeps p q q' v at named ok' n l =
    let (s', run, inv, _) = drop_queue_ref_lem p q q' v at named ok' n l in (s', run, inv)

free_queue-store :
    (p : Ptr) (q x : Queue) (s : Ins) → free_queue p q (store_queue p x s) ≡ free_queue p q s
unfolding free_queue
free_queue-store p q x s = λ i. traverse q.consumers >>= λ r. ok (record s {
  queue_store = (h_remove s.queue_store q.q_id).0;
  consumers = free_items r.0 s.consumers;
  queues = update-update s.queues p (some x) none i;
  orphans = λ a. if a == p then q.memqueue_binders else s.orphans a;
})

-- What the queue's own place held before does not matter.
pub drop_queue_ref-store :
    (p : Ptr) (q x : Queue) (s : Ins)
    → drop_queue_ref p q (store_queue p x s) ≡ drop_queue_ref p q s
unfolding drop_queue_ref
drop_queue_ref-store p q x s = λ i.
    if q.ref_count == 0
    then fault assertion
    else (if q.ref_count - 1 == 0
        then free_queue-store p (record q { ref_count = 0 }) x s i
        else ok (store_queue-store_queue p (record q { ref_count = q.ref_count - 1 }) x s i))

-- In a state in order, a reference of a message that has one can be given back: nothing faults, and
-- the state is in order afterwards. The message goes with its last reference, and the queue with its
-- own.
pub memqueue_msg_release-Keeps :
    {base : Ptr → ℕ} {s : Ins} (p i : ℕ) (m : Msg) (q : Queue)
    → Inv base s
    → s.queues p ≡ some q
    → find_msg i q.msg_queue ≡ some m
    → m.ref_count ≢ 0
    → Keeps base (memqueue_msg_release (ref_to p i) s)
unfolding memqueue_msg_release memqueue_release
memqueue_msg_release-Keeps {base} {s} p i m q v at found n =
    let (named, counts, binders) = lowered_same i m q in
    let (ok', some_ref) = lowered-QueueOk (base p) i m q (v.queue p q at) found n in
    rw (at, found, ne_== m.ref_count 0 n, ==_refl p)
      (rw (drop_queue_ref-store p (lowered i m q) (lowered i m q) s) (
        drop_queue_ref-Keeps p q (lowered i m q) v at named ok' (rw counts some_ref)
          (rw binders (v.live p q at))))
