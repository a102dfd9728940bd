-- ===== src/Memqueue/Links/Made.antt =====
-- Queues, messages, clients and binders that come: `memqueue_create`, `memqueue_msg_create`,
-- `cli_binder_create` and `memqueue_bind` of src/memqueue.c.
use memqueue.Base.{
  ℕ, ◌+◌, ◌≤◌, ◌<◌, ◌≡◌, refl, ap, sym, ◌∙◌, List, [], ◌∷◌, Option, none, some, Text, ◌==◌, ◌&&◌,
  if◌then◌else◌, Bool-cases, inl, inr, arith, ok, >>=-eq-ok, ok-injective, deref, Run, lt→ltb,
  ==_iff, ne_==,
}
use mathlib.Core.Path.{subst}
use memqueue.Base.Int.{ℤ}
use memqueue.Memqueue.Types.{Ptr, Queue, Binder, CliBinder, Ins, RbTrees, store_queue, store_cli}
use memqueue.Memqueue.Refs.{memqueue_retain}
use memqueue.Memqueue.Sched.{memqueue_type, obj_sched_expire, set_queue_node}
use memqueue.Memqueue.Message.{int_max, new_msg, push_msg, next_msg_id, memqueue_msg_create}
use memqueue.Memqueue.Poll.{cli_binder_create, memqueue_bind}
use memqueue.Memqueue.Args.{CreateArgs}
use memqueue.Memqueue.Handlers.{memqueue_init, new_queue, memqueue_create}
use memqueue.Memqueue.Invariant.{update_at}
use memqueue.Memqueue.Invariant.Retain.{ref_to}
use memqueue.Memqueue.Invariant.Timed.{sched_queue_made}
use memqueue.Memqueue.Invariant.Create.{sched_if_total}
use memqueue.Base.{deref-some}
use memqueue.Memqueue.Steps.Kept.{same_result, bind_there}
use memqueue.Memqueue.Links.{at_address, of_client, of_queue, binders_of, Links}
use memqueue.Memqueue.Links.Kept.{
  SameBinders, SameBinders-trans, same-SameBinders, write_queue-SameBinders,
}
use memqueue.Memqueue.Links.Same.{store_queue-SameBinders, notify_binders-SameBinders, unchanged}

pub memqueue_init-Links : Links memqueue_init
unfolding memqueue_init
memqueue_init-Links = record {
  linked = λ p q e. absurd (cc);
  once = λ p q e. absurd (cc);
  fresh = λ p q e. absurd (cc);
  fresh_clis = λ x k. refl;
}

set_queue_node-binders :
    (n : Option Ptr) (q : Queue) → (set_queue_node n q).memqueue_binders ≡ q.memqueue_binders
set_queue_node-binders none q = refl
set_queue_node-binders (some n) q = refl

some_queue : {q y : Queue} → some q ≡ some y → q ≡ y
some_queue e = cc

some_queue-binders : {q y : Queue} → some q ≡ some y → y.memqueue_binders ≡ q.memqueue_binders
some_queue-binders {q} {y} e = ap (λ x. x.memqueue_binders) (sym (some_queue e))

module _ (rb : RbTrees) where
  pub create-SameBinders :
      (now : ℕ) (a : CreateArgs) (id : Text) (s s' : Ins)
      → memqueue_create rb now a id s ≡ ok s'
      → SameBinders s s'
  unfolding memqueue_create memqueue_retain
  create-SameBinders now a id s s' e =
      let p = s.next_ptr in
      let new = new_queue a id in
      let s₀ : Ins = record s { next_ptr = p + 1 } in
      let s₁ : Ins = store_queue p new s₀ in
      let k₀ : SameBinders s s₀ = same-SameBinders s₀ refl refl (omega arith) in
      let k₁ : SameBinders s₀ s₁ =
        write_queue-SameBinders p (some new) s₀ (λ y x. inl (some_queue-binders x)) in
      let sched : Run Ins =
        if a.expiry == 0 then ok s₁ else obj_sched_expire rb now (memqueue_type p) a.expiry s₁ in
      let at₁ : s₁.queues p ≡ some new = update_at s.queues p (some new) in
      let (s₂, run, e₁) = >>=-eq-ok sched _ e in
      let k₂ : SameBinders s₁ s₂ = elim (Bool-cases (a.expiry == 0)) [
        | inl never ↦ subst (SameBinders s₁) (ok-injective (rw never at run)) (unchanged s₁)
        | inr timed ↦
            let t = sched_queue_made rb now p new a.expiry s₁ s₂ at₁ (rw timed at run) in
            let q' = set_queue_node t.node new in
            SameBinders-trans
              (store_queue-SameBinders p new q' s₁ at₁ (set_queue_node-binders t.node new))
              (same-SameBinders s₂ t.queues t.clis t.next_ptr)
      ] in
      let (s₃, kept, done) = >>=-eq-ok (memqueue_retain p s₂) _ e₁ in
      let (q, there, last) = >>=-eq-ok (deref (s₂.queues p)) _ kept in
      let k₃ : SameBinders s₂ s₃ = subst (SameBinders s₂) (ok-injective last) (
        store_queue-SameBinders p q (record q { ref_count = q.ref_count + 1 }) s₂
          (deref-some _ q there) refl) in
      let k₄ : SameBinders s₃ s' =
        subst (SameBinders s₃) (ok-injective done) (same-SameBinders _ refl refl (omega arith)) in
      SameBinders-trans k₀ (SameBinders-trans k₁ (SameBinders-trans k₂ (SameBinders-trans k₃ k₄)))

  pub post-SameBinders :
      (now : ℕ) (p : Ptr) (q : Queue) (msecs : ℤ) (body : Text) (s s' : Ins)
      → s.queues p ≡ some q
      → q.rev < int_max
      → memqueue_msg_create rb now p msecs body s ≡ ok s'
      → SameBinders s s'
  unfolding memqueue_msg_create
  post-SameBinders now p q msecs body s s' at room e =
      let i = next_msg_id s in
      let m = new_msg q msecs body i in
      let s₁ : Ins = record s { unique_msg_id = i } in
      let (s₂, run, same) = sched_if_total rb now (ref_to p i) msecs s₁ in
      let at₂ : s₂.queues p ≡ some q = rw same.queues at in
      let s₃ : Ins = store_queue p (push_msg q m) s₂ in
      SameBinders-trans (same-SameBinders s₂ same.queues same.clis same.next_ptr) (
        SameBinders-trans (store_queue-SameBinders p q (push_msg q m) s₂ at₂ refl) (
          notify_binders-SameBinders q.memqueue_binders (q.rev + 1) (ref_to p i) s₃ s'
            (rw (at, lt→ltb q.rev int_max room, run, at₂) at e)))

-- A client that comes has no binder.
pub connect-Links : {s : Ins} (timeout : ℕ) → Links s → Links (cli_binder_create timeout s).1
unfolding cli_binder_create of_queue
connect-Links {s} timeout l = record {
  linked = λ p q at x a. elim (Bool-cases (x == s.next_ptr)) [
    | inl new ↦
        let vacant : s.clis x ≡ none =
          ap s.clis ((==_iff _ _).0 new) ∙ l.fresh_clis s.next_ptr (omega arith) in
        let old = l.linked p q at x a in
        let before : of_queue p a (binders_of (s.clis x)) ≡ 0 =
          ap (λ o. of_queue p a (binders_of o)) vacant in
        rw new (omega (arith, old, before))
    | inr old ↦ rw old (l.linked p q at x a)
  ];
  once = l.once;
  fresh = λ p q at a k. l.fresh p q at a (omega arith);
  fresh_clis =
      λ x k. rw (ne_== x s.next_ptr (λ e. omega (arith, e, k))) (l.fresh_clis x (omega arith));
}

-- With nothing owed, a client's list has what the queues' lists have of it.
pub all_listed :
    {s : Ins} (p : Ptr) (q : Queue)
    → Links s
    → s.queues p ≡ some q
    → (x a : Ptr) → of_client x a q.memqueue_binders ≤ of_queue p a (binders_of (s.clis x))
unfolding of_queue
all_listed p q l at x a = ground (arith, l.linked p q at x a)

-- A new binder stands in both lists, at an address that no other has.
module _ (p c : Ptr) (rev include_consumers : ℤ) (q : Queue) (b : CliBinder) (s : Ins)
    (at : s.queues p ≡ some q) (there : s.clis c ≡ some b) where
  abbrev binder : Binder
  binder = record {
    address = s.next_ptr;
    rev = rev;
    memqueue = p;
    cli_binder = c;
    include_consumers = include_consumers;
  }

  abbrev with_binder : Queue
  with_binder = record q { memqueue_binders = binder ∷ q.memqueue_binders }

  abbrev bound : Ins
  bound =
      record (store_queue p with_binder
        (store_cli c (record b { memqueues = binder ∷ b.memqueues }) s)) {
          next_ptr = s.next_ptr + 1;
        }

  bind_run : memqueue_bind p c rev include_consumers s ≡ ok bound
  unfolding memqueue_bind
  bind_run = rw (there, at) refl

  module _ (l : Links s) where
    listed :
        (x a : Ptr) (a' : Ptr)
        → of_queue a' a (binders_of (bound.clis x))
          ≡ of_queue a' a (binders_of (s.clis x))
            + (if (x == c) && ((p == a') && (s.next_ptr == a)) then 1 else 0)
    unfolding of_queue
    listed x a a' = elim (Bool-cases (x == c)) [
      | inl hit ↦
          let here : of_queue a' a (binders_of (s.clis x)) ≡ of_queue a' a b.memqueues =
            ap (λ o. of_queue a' a (binders_of o)) (ap s.clis ((==_iff x c).0 hit) ∙ there) in
          rw hit (ground (arith, here))
      | inr miss ↦ rw miss (ground (arith, miss))
    ]

    linked_here :
        (x a : Ptr)
        → of_client x a with_binder.memqueue_binders ≤ of_queue p a (binders_of (bound.clis x))
    unfolding of_client
    linked_here x a = ground (arith, all_listed p q l at x a, listed x a p)

    -- What holds of the queue with its new binder and of the others holds of all.
    either :
        (P : Ptr → List Binder → Type 0)
        → P p with_binder.memqueue_binders
        → ((a : Ptr) (y : Queue) → s.queues a ≡ some y → P a y.memqueue_binders)
        → (a : Ptr) (y : Queue) → bound.queues a ≡ some y
        → P a y.memqueue_binders
    either P new old a y e = elim (Bool-cases (a == p)) [
      | inl hit ↦
          let same : with_binder ≡ y = some_queue (rw hit at e) in
          rw ((==_iff a p).0 hit) (subst (λ (z : Queue). P p z.memqueue_binders) same new)
      | inr miss ↦ old a y (rw miss at e)
    ]

    bound-Links : Links bound
    unfolding at_address
    bound-Links = record {
      linked = λ a' y e x a.
          either
            (λ a' bs.
              of_client x a bs
              ≤ of_queue a' a (binders_of (bound.clis x))
                + (if x == 0 then of_queue a' a [] else 0))
            (omega (arith, linked_here x a))
            (λ a' y old. omega (arith, all_listed a' y l old x a, listed x a a')) a' y e;
      once = λ a' y e a.
          either (λ a' bs. at_address a bs ≤ 1) (ground (arith, l.once p q at a, l.fresh p q at a))
            (λ a' y old. l.once a' y old a) a' y e;
      fresh = λ a' y e a k.
          either (λ a' bs. at_address a bs ≡ 0) (ground (arith, l.fresh p q at a, k))
            (λ a' y old. l.fresh a' y old a (omega (arith, k))) a' y e;
      fresh_clis = λ x k.
          rw (ne_== x c (λ h. cc (there, l.fresh_clis x (omega (arith, k)), ap s.clis h)))
            (l.fresh_clis x (omega (arith, k)));
    }

pub bind-Links :
    (p c : Ptr) (rev include_consumers : ℤ) (s s' : Ins)
    → memqueue_bind p c rev include_consumers s ≡ ok s'
    → Links s
    → Links s'
bind-Links p c rev include_consumers s s' e l =
    let (q, b, at, there) = bind_there p c rev include_consumers s s' e in
    same_result Links (bind_run p c rev include_consumers q b s at there) e
      (bound-Links p c rev include_consumers q b s at there l)
