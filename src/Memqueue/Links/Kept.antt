-- ===== src/Memqueue/Links/Kept.antt =====
-- The operations of src/memqueue.c that bind and unbind nobody: the binders stay linked.
use memqueue.Base.{
  ◌+◌, ◌≤◌, ◌≡◌, ◌⊎◌, refl, ap, sym, ◌∙◌, List, [], Option, none, some, ◌==◌, if◌then◌else◌,
  Bool-cases, inl, inr, arith, ==_iff, ne_==,
}
use mathlib.Core.Path.{subst}
use memqueue.Memqueue.Types.{Ptr, Queue, Binder, CliBinder, Ins, update, store_cli}
use memqueue.Memqueue.Links.{at_address, of_client, of_queue, binders_of, LinksBut}

-- Where the queue `y` at an address has its binders from.
abbrev pub From : Option Queue → Queue → Type 0
From o y =
    (y.memqueue_binders ≡ [])
    ⊎ ((q : Queue) × (o ≡ some q) × (y.memqueue_binders ≡ q.memqueue_binders))

-- `s'` has the binders of `s`, but for queues that are gone, and new ones that have none.
pub record SameBinders (s s' : Ins) : Type 0 where
  pub queues : (p : Ptr) (y : Queue) → s'.queues p ≡ some y → From (s.queues p) y
  pub clis : (x : Ptr) → binders_of (s'.clis x) ≡ binders_of (s.clis x)
  pub next_ptr : s.next_ptr ≤ s'.next_ptr
  pub fresh : (x : Ptr) → s'.next_ptr ≤ x → s.clis x ≡ none → s'.clis x ≡ none

-- What holds of no binders and of the binders of each queue of `s` holds of those of `s'`.
transfer :
    {s s' : Ins} (P : List Binder → Type 0) (p : Ptr) (y : Queue)
    → SameBinders s s'
    → s'.queues p ≡ some y
    → P []
    → ((q : Queue) → s.queues p ≡ some q → P q.memqueue_binders)
    → P y.memqueue_binders
transfer {s} P p y k at z f = elim (k.queues p y at) [
  | inl empty ↦ subst P (sym empty) z
  | inr (q, old, same) ↦ subst P (sym same) (f q old)
]

pub SameBinders-Links :
    {c : Ptr} {debt : List Binder} {s : Ins} (s' : Ins)
    → SameBinders s s'
    → LinksBut c debt s
    → LinksBut c debt s'
unfolding of_client at_address
SameBinders-Links {c} {debt} {s} s' k l = record {
  linked = λ p y at x a.
      transfer
        (λ bs.
          of_client x a bs
          ≤ of_queue p a (binders_of (s'.clis x)) + (if x == c then of_queue p a debt else 0))
        p y k at (omega arith) (λ q old. rw (k.clis x) (l.linked p q old x a));
  once = λ p y at a.
      transfer (λ bs. at_address a bs ≤ 1) p y k at (omega arith) (λ q old. l.once p q old a);
  fresh = λ p y at a m.
      transfer (λ bs. at_address a bs ≡ 0) p y k at (omega arith)
        (λ q old. l.fresh p q old a (omega (arith, m, k.next_ptr)));
  fresh_clis = λ x m. k.fresh x m (l.fresh_clis x (omega (arith, m, k.next_ptr)));
}

From-refl : (o : Option Queue) (y : Queue) → o ≡ some y → From o y
From-refl o y e = inr (y, e, refl)

pub SameBinders-trans : {s s' s'' : Ins} → SameBinders s s' → SameBinders s' s'' → SameBinders s s''
SameBinders-trans {s} {s'} {s''} k k' = record {
  queues = λ p y at. elim (k'.queues p y at) [
    | inl empty ↦ inl empty
    | inr (q, old, same) ↦ elim (k.queues p q old) [
      | inl empty ↦ inl (same ∙ empty)
      | inr (q₀, older, same₀) ↦ inr (q₀, older, same ∙ same₀)
    ]
  ];
  clis = λ x. k'.clis x ∙ k.clis x;
  next_ptr = omega (arith, k.next_ptr, k'.next_ptr);
  fresh = λ x m e. k'.fresh x m (k.fresh x (omega (arith, m, k'.next_ptr)) e);
}

pub same-SameBinders :
    {s : Ins} (s' : Ins)
    → s'.queues ≡ s.queues
    → s'.clis ≡ s.clis
    → s.next_ptr ≤ s'.next_ptr
    → SameBinders s s'
same-SameBinders {s} s' queues clis more = record {
  queues = λ p y at. From-refl (s.queues p) y (sym (λ i. queues i p) ∙ at);
  clis = λ x. ap binders_of (λ i. clis i x);
  next_ptr = more;
  fresh = λ x m e. (λ i. clis i x) ∙ e;
}

-- A queue is written with the binders that it has, or where none was, or goes.
pub write_queue-SameBinders :
    (p : Ptr) (o : Option Queue) (s : Ins)
    → ((y : Queue) → o ≡ some y → From (s.queues p) y)
    → SameBinders s (record s { queues = update s.queues p o })
write_queue-SameBinders p o s f = record {
  queues = λ a y at. elim (Bool-cases (a == p)) [
    | inl hit ↦ let here : a ≡ p = (==_iff a p).0 hit in rw here (f y (rw hit at at))
    | inr miss ↦ From-refl (s.queues a) y (rw miss at at)
  ];
  clis = λ x. refl;
  next_ptr = omega arith;
  fresh = λ x m e. e;
}

pub store_cli-SameBinders :
    (c : Ptr) (b b' : CliBinder) (s : Ins)
    → s.clis c ≡ some b
    → b'.memqueues ≡ b.memqueues
    → SameBinders s (store_cli c b' s)
store_cli-SameBinders c b b' s there same = record {
  queues = λ p y at. From-refl (s.queues p) y at;
  clis = λ x. elim (Bool-cases (x == c)) [
    | inl hit ↦ rw hit (same ∙ sym (ap binders_of (ap s.clis ((==_iff x c).0 hit) ∙ there)))
    | inr miss ↦ rw miss refl
  ];
  next_ptr = omega arith;
  fresh = λ x m e. rw (ne_== x c (λ h. cc (e, there, ap s.clis h))) e;
}
