-- ===== src/Memqueue/Links/Deleted.antt =====
-- A DELETE of src/memqueue.c while a client polls the queue.
use memqueue.Base.{
  true, false, ℕ, ◌≡◌, ◌≢◌, refl, ap, ◌∙◌, List, [], ◌∷◌, none, some, Text, ◌==◌, Bool-cases, inl,
  inr, arith, ok, fault, use_after_free, ==_iff, Option-cases,
}
use memqueue.Hash.{h_get}
use memqueue.Memqueue.Types.{Ptr, Queue, Binder, Ins, store_queue, store_cli}
use memqueue.Memqueue.Poll.{
  remove_binder, is_head, without_orphan, unbind_loop, memqueue_unbind_all, poll_end,
}
use memqueue.Memqueue.Respond.{memqueue_respond, deleted}
use memqueue.Memqueue.Handlers.{on_queue_delete}
use memqueue.Memqueue.Invariant.{update_at}
use memqueue.Memqueue.Invariant.Delete.{drop_base, delete_run}
use memqueue.Memqueue.Ledger.Released.{drop_queue_ref-Dropped}
use memqueue.Memqueue.Links.{of_client, of_queue, binders_of}
use memqueue.Memqueue.Links.Made.{all_listed}
use memqueue.Memqueue.Steps.Ended.{Sound}

-- The list of a freed queue whose first binder is not removed yet.
record Orphaned (p : Ptr) (x : Binder) (s : Ins) : Type 0 where
  gone : s.queues p ≡ none
  rest : List Binder
  first : s.orphans p ≡ x ∷ rest

other_stored :
    (p a : Ptr) (x : Binder) (q : Queue) (s : Ins)
    → (a == p) ≡ false
    → Orphaned p x s
    → Orphaned p x (store_queue a q s)
other_stored p a x q s miss o = record {
  gone = ground (arith, o.gone, miss);
  rest = o.rest;
  first = o.first;
}

other_removed :
    (p : Ptr) (x b : Binder) (s : Ins)
    → (b.memqueue == p) ≡ false
    → Orphaned p x s
    → Orphaned p x (without_orphan b s)
other_removed p x b s miss o = record {
  gone = o.gone;
  rest = o.rest;
  first = ground (arith, o.first, miss);
}

later_removed :
    (p : Ptr) (x b : Binder) (s : Ins)
    → (b.memqueue == p) ≡ true
    → (x.address == b.address) ≡ false
    → Orphaned p x s
    → Orphaned p x (without_orphan b s)
unfolding remove_binder
later_removed p x b s hit later o =
    let here : (p == b.memqueue) ≡ true = ground (arith, hit) in
    record {
      gone = o.gone;
      rest = remove_binder b.address o.rest;
      first = rw (here, o.first, remove_binder, later) refl;
    }

-- The removal of the binder that heads the list of a freed queue writes to it.
unbind_loop-freed :
    (p : Ptr) (x : Binder) (bs : List Binder) (s : Ins)
    → Orphaned p x s
    → of_queue p x.address bs ≢ 0
    → unbind_loop bs s ≡ fault use_after_free
unfolding unbind_loop of_queue is_head
unbind_loop-freed p x [] s o n = absurd (n refl)
unbind_loop-freed p x (b ∷ bs) s o n = elim (Bool-cases (b.memqueue == p)) [
  | inl hit ↦
      let e = (==_iff b.memqueue p).0 hit in
      let here : s.queues b.memqueue ≡ none = ap s.queues e ∙ o.gone in
      let listed : s.orphans b.memqueue ≡ x ∷ o.rest = ap s.orphans e ∙ o.first in
      elim (Bool-cases (x.address == b.address)) [
        | inl head ↦ rw (unbind_loop, here, listed, head) refl
        | inr later ↦
            rw (unbind_loop, here, listed, later)
              (unbind_loop-freed p x bs (without_orphan b s) (later_removed p x b s hit later o)
                (λ z. n (ground (arith, z, later))))
      ]
  | inr miss ↦ elim (Option-cases (s.queues b.memqueue)) [
    | inr (q, at) ↦
        rw (unbind_loop, at)
          (unbind_loop-freed p x bs (store_queue b.memqueue _ s)
            (other_stored p b.memqueue x _ s miss o) (λ z. n (ground (arith, z, miss))))
    | inl out ↦ elim (Bool-cases (is_head b.address (s.orphans b.memqueue))) [
      | inl head ↦ rw (unbind_loop, out, head) refl
      | inr later ↦
          rw (unbind_loop, out, later)
            (unbind_loop-freed p x bs (without_orphan b s) (other_removed p x b s miss o)
              (λ z. n (ground (arith, z, miss))))
    ]
  ]
]

memqueue_unbind_all-freed :
    (p c : Ptr) (x : Binder) (s : Ins)
    → Orphaned p x s
    → of_queue p x.address (binders_of (s.clis c)) ≢ 0
    → memqueue_unbind_all c s ≡ fault use_after_free
unfolding memqueue_unbind_all of_queue
memqueue_unbind_all-freed p c x s o n = elim (Option-cases (s.clis c)) [
  | inl out ↦ rw out refl
  | inr (b, there) ↦
      let listed : of_queue p x.address b.memqueues ≢ 0 = rw there at n in
      rw there (
        unbind_loop-freed p x b.memqueues (store_cli c (record b { memqueues = [] }) s)
          (record { gone = o.gone; rest = o.rest; first = o.first }) listed)
]

first_of_client : (x : Binder) (bs : List Binder) → of_client x.cli_binder x.address (x ∷ bs) ≢ 0
unfolding of_client
first_of_client x bs e = ground (arith, e)

-- In a state in order, with the references counted right and the binders linked, a DELETE of a queue
-- whose only reference is its creation's answers that it is deleted, though clients are bound to it; the
-- poll of the client whose binder heads the queue's list, if it is the first to end, faults, since the
-- removal of that binder writes to the freed queue.
pub poll_end-on_queue_delete :
    {base : Ptr → ℕ} {held : Ptr → ℕ → ℕ} {s : Ins} (id : Text) (p : Ptr) (q : Queue) (x : Binder)
    (bs : List Binder)
    → Sound base held s
    → h_get s.queue_store id ≡ some p
    → s.queues p ≡ some q
    → base p ≢ 0
    → q.ref_count ≡ 1
    → q.memqueue_binders ≡ x ∷ bs
    → (s' : Ins) × (on_queue_delete id s ≡ ok (memqueue_respond deleted, s'))
      × (poll_end x.cli_binder s' ≡ fault use_after_free)
unfolding poll_end
poll_end-on_queue_delete {s = s} id p q x bs v named at n last binders =
    let c = x.cli_binder in
    let a = x.address in
    let (s', run, _, _) = drop_base p q v.inv at n in
    let d = drop_queue_ref-Dropped p q s s' run in
    let o : Orphaned p x s' = record {
      gone = ap (λ f. f p) d.queues ∙ update_at s.queues p _ ∙ rw last refl;
      rest = bs;
      first = d.orphans (omega (arith, last)) ∙ binders;
    } in
    let listed = all_listed p q v.links at c a in
    let some_bound : of_client c a q.memqueue_binders ≢ 0 = rw binders (first_of_client x bs) in
    let same : of_queue p a (binders_of (s'.clis c)) ≡ of_queue p a (binders_of (s.clis c)) =
      ap (λ f. of_queue p a (binders_of (f c))) d.clis in
    (
      s',
      delete_run id p q s s' named at run,
      rw (memqueue_unbind_all-freed p c x s' o (λ z. some_bound (omega (arith, z, same, listed))))
          refl,
    )
