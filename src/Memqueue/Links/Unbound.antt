-- ===== src/Memqueue/Links/Unbound.antt =====
-- `memqueue_unbind_all` and the end of a poll, of src/memqueue.c.
use memqueue.Base.{
  >>-guard, use_after_free, not, Option-cases, ok-injective, none, ◌+◌, ◌≤◌, ◌≡◌, refl, ap, ◌∙◌,
  List, [], ◌∷◌, some, ◌==◌, if◌then◌else◌, Bool-cases, inl, inr, arith, ok, ==_iff, ne_==, ◌<◌,
  >>=-eq-ok, deref,
}
use mathlib.Core.Path.{subst}
use memqueue.Memqueue.Types.{Ptr, Queue, Binder, CliBinder, Ins, store_queue, store_cli}
use memqueue.Memqueue.Poll.{
  remove_binder, without_orphan, is_head, unbind_loop, memqueue_unbind_all,
}
use memqueue.Memqueue.Invariant.{update_at}
use memqueue.Base.{deref-some}
use memqueue.Memqueue.Links.{at_address, of_client, of_queue, binders_of, LinksBut, Links}

of_client-le : (c a : Ptr) (bs : List Binder) → of_client c a bs ≤ at_address a bs
unfolding of_client at_address
of_client-le c a [] = omega arith
of_client-le c a (b ∷ bs) = ground (arith, of_client-le c a bs)

at_address-remove_lem :
    (x a : Ptr) (bs : List Binder) → at_address a (remove_binder x bs) ≤ at_address a bs
unfolding at_address remove_binder
at_address-remove_lem x a [] = omega arith
at_address-remove_lem x a (b ∷ bs) = ground (arith, at_address-remove_lem x a bs)

at_address-remove :
    (a : Ptr) (bs : List Binder) → at_address a bs ≤ 1 → at_address a (remove_binder a bs) ≡ 0
unfolding at_address remove_binder
at_address-remove a [] l = omega arith
at_address-remove a (b ∷ bs) l = ground (arith, at_address-remove a bs)

of_client-remove :
    (c x a : Ptr) (bs : List Binder) → of_client c a (remove_binder x bs) ≤ of_client c a bs
unfolding of_client remove_binder
of_client-remove c x a [] = omega arith
of_client-remove c x a (b ∷ bs) = ground (arith, of_client-remove c x a bs)

settled :
    (c : Ptr) (b : Binder) (bs : List Binder) (q : Queue) (s : Ins)
    → s.queues b.memqueue ≡ some q
    → LinksBut c (b ∷ bs) s
    → (x a : Ptr)
    → of_client x a (remove_binder b.address q.memqueue_binders)
      ≤ of_queue b.memqueue a (binders_of (s.clis x))
        + (if x == c then of_queue b.memqueue a bs else 0)
unfolding of_queue
settled c b bs q s at l x a =
    let p = b.memqueue in
    let old = l.linked p q at x a in
    let less = of_client-remove x b.address a q.memqueue_binders in
    elim (Bool-cases (b.address == a)) [
      | inl hit ↦
          let same = (==_iff b.address a).0 hit in
          let left = at_address-remove b.address q.memqueue_binders (l.once p q at b.address) in
          let few = of_client-le x b.address (remove_binder b.address q.memqueue_binders) in
          rw (← same) (omega (arith, few, left))
      | inr miss ↦ ground (arith, old, less, miss)
    ]

-- A queue's list loses the binder that is no longer owed.
step-LinksBut :
    (c : Ptr) (b : Binder) (bs : List Binder) (q : Queue) (s : Ins)
    → s.queues b.memqueue ≡ some q
    → LinksBut c (b ∷ bs) s
    → LinksBut c bs (
        store_queue b.memqueue
          (record q { memqueue_binders = remove_binder b.address q.memqueue_binders })
          s)
unfolding of_queue
step-LinksBut c b bs q s at l =
    let q' : Queue = record q { memqueue_binders = remove_binder b.address q.memqueue_binders } in
    let p = b.memqueue in
    record {
      linked = λ p' y e x a. elim (Bool-cases (p' == p)) [
        | inl same ↦
            let new : q' ≡ y = ground (arith, e, same) in
            rw ((==_iff p' p).0 same) (
              subst
                (λ (z : Queue).
                  of_client x a z.memqueue_binders
                  ≤ of_queue p a (binders_of (s.clis x)) + (if x == c then of_queue p a bs else 0))
                new (settled c b bs q s at l x a))
        | inr other ↦
            let old : s.queues p' ≡ some y = rw other at e in
            ground (arith, l.linked p' y old x a, other)
      ];
      once = λ p' y e a. elim (Bool-cases (p' == p)) [
        | inl same ↦
            let new : q' ≡ y = ground (arith, e, same) in
            subst (λ (z : Queue). at_address a z.memqueue_binders ≤ 1) new
              (omega (arith, l.once p q at a, at_address-remove_lem b.address a q.memqueue_binders))
        | inr other ↦ l.once p' y (rw other at e) a
      ];
      fresh = λ p' y e a k. elim (Bool-cases (p' == p)) [
        | inl same ↦
            let new : q' ≡ y = ground (arith, e, same) in
            subst (λ (z : Queue). at_address a z.memqueue_binders ≡ 0) new
              (omega
                (arith, l.fresh p q at a k, at_address-remove_lem b.address a q.memqueue_binders))
        | inr other ↦ l.fresh p' y (rw other at e) a k
      ];
      fresh_clis = l.fresh_clis;
    }

-- Each binder's queue is there.
abbrev pub Bound : Ins → List Binder → Type 0
Bound s [] = Unit
Bound s (b ∷ bs) = ((q : Queue) × (s.queues b.memqueue ≡ some q)) × Bound s bs

pub Bound-store :
    (p : Ptr) (q' : Queue) (s : Ins) (bs : List Binder) → Bound s bs → Bound (store_queue p q' s) bs
Bound-store p q' s [] r = tt
Bound-store p q' s (b ∷ bs) ((q, at), r) = (
  elim (Bool-cases (b.memqueue == p)) [ inl hit ↦ (q', rw hit) | inr miss ↦ (q, rw miss at) ],
  Bound-store p q' s bs r,
)

unbind_loop_lem :
    (c : Ptr) (bs : List Binder) (s : Ins)
    → LinksBut c bs s
    → Bound s bs
    → (s' : Ins) × (unbind_loop bs s ≡ ok s') × LinksBut c [] s' × (s'.clis ≡ s.clis)
unfolding unbind_loop
unbind_loop_lem c [] s l r = (s, refl, l, refl)
unbind_loop_lem c (b ∷ bs) s l ((q, at), r) =
    let q' : Queue = record q { memqueue_binders = remove_binder b.address q.memqueue_binders } in
    let (s', run, l', same) =
      unbind_loop_lem c bs (store_queue b.memqueue q' s) (step-LinksBut c b bs q s at l)
        (Bound-store b.memqueue q' s bs r) in
    (s', rw (unbind_loop, at) run, l', same)

-- The lists of a client that has none left to give up.
settled-Links : (c d : Ptr) (s : Ins) → LinksBut c [] s → LinksBut d [] s
unfolding of_queue
settled-Links c d s l = record {
  linked = λ p q at x a. ground (arith, l.linked p q at x a);
  once = l.once;
  fresh = l.fresh;
  fresh_clis = l.fresh_clis;
}

-- What a client's emptied list owes to the queues.
owed-LinksBut :
    (c : Ptr) (b : CliBinder) (s : Ins)
    → Links s
    → s.clis c ≡ some b
    → LinksBut c b.memqueues (store_cli c (record b { memqueues = [] }) s)
unfolding of_queue
owed-LinksBut c b s l there =
    let below : c < s.next_ptr = ground (arith, l.fresh_clis c, there) in
    record {
      linked = λ p q at x a. elim (Bool-cases (x == c)) [
        | inl hit ↦
            let old = l.linked p q at x a in
            let mine : binders_of (s.clis x) ≡ b.memqueues =
              ap binders_of (ap s.clis ((==_iff x c).0 hit) ∙ there) in
            let count : of_queue p a (binders_of (s.clis x)) ≡ of_queue p a b.memqueues =
              ap (of_queue p a) mine in
            rw hit (ground (arith, old, count))
        | inr miss ↦ rw miss (ground (arith, l.linked p q at x a))
      ];
      once = l.once;
      fresh = l.fresh;
      fresh_clis = λ x k. rw (ne_== x c (λ e. omega (arith, e, k, below))) (l.fresh_clis x k);
    }

-- In a state whose binders are linked, a client all of whose queues are there can be unbound: nothing
-- faults, it has no binder left, and the other binders are linked as before.
pub memqueue_unbind_all-Links :
    (c : Ptr) (b : CliBinder) (s : Ins)
    → Links s
    → s.clis c ≡ some b
    → Bound s b.memqueues
    → (s' : Ins) × (memqueue_unbind_all c s ≡ ok s')
      × Links s'
      × (s'.clis c ≡ some (record b { memqueues = [] }))
unfolding memqueue_unbind_all
memqueue_unbind_all-Links c b s l there r =
    let b' : CliBinder = record b { memqueues = [] } in
    let (s', run, l', same) =
      unbind_loop_lem c b.memqueues (store_cli c b' s) (owed-LinksBut c b s l there) r in
    (s', rw there run, settled-Links c 0 s' l', (λ i. same i c) ∙ update_at s.clis c (some b'))

-- A binder of a queue that is gone is owed to no queue that is there.
gone-LinksBut :
    (c : Ptr) (b : Binder) (bs : List Binder) (s : Ins)
    → s.queues b.memqueue ≡ none
    → LinksBut c (b ∷ bs) s
    → LinksBut c bs (without_orphan b s)
unfolding of_queue
gone-LinksBut c b bs s gone l = record {
  linked = λ p q at x a. elim (Bool-cases (b.memqueue == p)) [
    | inl hit ↦ absurd (ground (arith, at, gone, ap s.queues ((==_iff b.memqueue p).0 hit)))
    | inr miss ↦ ground (arith, l.linked p q at x a, miss)
  ];
  once = l.once;
  fresh = l.fresh;
  fresh_clis = l.fresh_clis;
}

unbind_loop-LinksBut :
    (c : Ptr) (bs : List Binder) (s s' : Ins)
    → unbind_loop bs s ≡ ok s'
    → LinksBut c bs s
    → LinksBut c [] s'
unfolding unbind_loop
unbind_loop-LinksBut c [] s s' e l = subst (LinksBut c []) (ok-injective e) l
unbind_loop-LinksBut c (b ∷ bs) s s' e l = elim (Option-cases (s.queues b.memqueue)) [
  | inl gone ↦
      let rest =
        >>-guard (not (is_head b.address (s.orphans b.memqueue))) use_after_free _
          (rw (unbind_loop, gone) at e) in
      unbind_loop-LinksBut c bs (without_orphan b s) s' rest (gone-LinksBut c b bs s gone l)
  | inr (q, at) ↦
      let q' : Queue = record q { memqueue_binders = remove_binder b.address q.memqueue_binders } in
      unbind_loop-LinksBut c bs (store_queue b.memqueue q' s) s' (rw (unbind_loop, at) at e)
        (step-LinksBut c b bs q s at l)
]

pub unbind-Links : (c : Ptr) (s s' : Ins) → memqueue_unbind_all c s ≡ ok s' → Links s → Links s'
unfolding memqueue_unbind_all
unbind-Links c s s' e l =
    let (b, there, rest) = >>=-eq-ok (deref (s.clis c)) _ e in
    let b' : CliBinder = record b { memqueues = [] } in
    settled-Links c 0 s' (
      unbind_loop-LinksBut c b.memqueues (store_cli c b' s) s' rest
        (owed-LinksBut c b s l (deref-some _ b there)))
