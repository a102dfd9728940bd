-- ===== src/Memqueue/Ledger/Kept.antt =====
-- The operations of src/memqueue.c and src/memqueue_expiry.c that take and give back no reference of a
-- message.
use memqueue.Base.{
  >>-guard, use_after_free, not, ℕ, suc, ◌+◌, ◌≤◌, ◌≡◌, refl, ap, ◌∙◌, List, [], ◌∷◌, none, some,
  ◌==◌, Bool-cases, Option-cases, inl, inr, arith, ok, >>=-eq-ok, ok-injective, deref, ==_iff,
  ne_==,
}
use mathlib.Core.Path.{subst}
use memqueue.Base.Int.{ℤ}
use memqueue.Memqueue.Types.{Ptr, Queue, Binder, CliBinder, Ins, RbTrees, store_queue, store_cli}
use memqueue.Memqueue.Sched.{memqueue_resched}
use memqueue.Memqueue.Cleaner.{clear_expiry_node}
use memqueue.Memqueue.Poll.{
  cli_binder_create, memqueue_bind, remove_binder, without_orphan, is_head, unbind_loop,
  memqueue_unbind_all,
}
use memqueue.Memqueue.Invariant.{update_at}
use memqueue.Memqueue.Invariant.Rescheduled.{Resched, memqueue_resched_made}
use memqueue.Base.{deref-some}
use memqueue.Memqueue.Ledger.{total, pending_of, owed, refs_at, refs_of, numbered, Ledger}
use memqueue.Memqueue.Ledger.Sums.{owed_more, total_below}
use memqueue.Memqueue.Ledger.Taken.{once-store_queue, store_cli-Ledger}

-- What else changes of a state is not counted.
pub same-Ledger :
    {held : Ptr → ℕ → ℕ} {s : Ins} (s' : Ins)
    → s'.queues ≡ s.queues
    → s'.clis ≡ s.clis
    → s.next_ptr ≤ s'.next_ptr
    → Ledger held s
    → Ledger held s'
same-Ledger {s = s} s' queues clis more l = record {
  exact =
      rw (queues, clis)
        (λ p i. omega (arith, l.exact p i, owed_more s s'.next_ptr p i l.fresh more));
  once = rw queues l.once;
  fresh = rw clis (λ c k. l.fresh c (omega (arith, k, more)));
}

-- A queue that changes in no message.
pub store_queue-Ledger :
    {held : Ptr → ℕ → ℕ} {s : Ins} (p : Ptr) (q q' : Queue)
    → s.queues p ≡ some q
    → q'.msg_queue ≡ q.msg_queue
    → Ledger held s
    → Ledger held (store_queue p q' s)
store_queue-Ledger {s = s} p q q' at same l = record {
  exact = λ a i. elim (Bool-cases (a == p)) [
    | inl hit ↦
        let here : refs_at (s.queues a) i ≡ refs_of i q.msg_queue =
          ap (λ x. refs_at x i) (ap s.queues ((==_iff a p).0 hit) ∙ at) in
        rw hit (omega (arith, here, ap (refs_of i) same, l.exact a i))
    | inr miss ↦ rw miss (l.exact a i)
  ];
  once = once-store_queue p q' l (λ j. omega (arith, l.once p q at j, ap (numbered j) same));
  fresh = l.fresh;
}

pub connect-Ledger :
    {held : Ptr → ℕ → ℕ} {s : Ins} (timeout : ℕ)
    → Ledger held s
    → Ledger held (cli_binder_create timeout s).1
unfolding cli_binder_create total
connect-Ledger {s = s} timeout l =
    let s' = (cli_binder_create timeout s).1 in
    let f : Ptr → ℕ → Ptr → ℕ = λ p i c. pending_of (s'.clis c) p i in
    let none_yet : (p i : ℕ) → f p i s.next_ptr ≡ 0 =
      λ p i. ap (λ o. pending_of o p i) (update_at s.clis s.next_ptr _) in
    let grown : (p i : ℕ) → owed s' p i ≡ f p i s.next_ptr + total (f p i) s.next_ptr =
      λ p i. ap (total (f p i)) {y = suc s.next_ptr} (omega arith) in
    let old : (p i : ℕ) → total (f p i) s.next_ptr ≡ owed s p i = λ p i.
      total_below (f p i) (λ c. pending_of (s.clis c) p i) s.next_ptr s.next_ptr (omega arith)
        (λ a n. rw (ne_== a s.next_ptr n) refl) in
    record {
      exact = λ p i. omega (arith, l.exact p i, none_yet p i, grown p i, old p i);
      once = l.once;
      fresh = λ c k. rw (ne_== c s.next_ptr (λ e. omega (arith, e, k))) (l.fresh c (omega arith));
    }

pub bind-Ledger :
    {held : Ptr → ℕ → ℕ} (p c : Ptr) (rev include_consumers : ℤ) (s s' : Ins)
    → memqueue_bind p c rev include_consumers s ≡ ok s'
    → Ledger held s
    → Ledger held s'
unfolding memqueue_bind
bind-Ledger {held} p c rev include_consumers s s' e l =
    let (b, there, e₁) = >>=-eq-ok (deref (s.clis c)) _ e in
    let (q, at, e₂) = >>=-eq-ok (deref (s.queues p)) _ e₁ in
    let l₁ = store_cli-Ledger c b (record b { memqueues = _ }) (deref-some _ b there) refl l in
    let l₂ =
      store_queue-Ledger p q (record q { memqueue_binders = _ }) (deref-some _ q at) refl l₁ in
    subst (Ledger held) (ok-injective e₂) (same-Ledger _ refl refl (omega arith) l₂)

unbind_loop-Ledger :
    {held : Ptr → ℕ → ℕ} (bs : List Binder) (s s' : Ins)
    → unbind_loop bs s ≡ ok s'
    → Ledger held s
    → Ledger held s'
unfolding unbind_loop
unbind_loop-Ledger [] s s' e l = subst (Ledger _) (ok-injective e) l
unbind_loop-Ledger (b ∷ bs) s s' e l = elim (Option-cases (s.queues b.memqueue)) [
  | inl gone ↦
      let rest =
        >>-guard (not (is_head b.address (s.orphans b.memqueue))) use_after_free _
          (rw (unbind_loop, gone) at e) in
      unbind_loop-Ledger bs (without_orphan b s) s' rest (same-Ledger _ refl refl (omega arith) l)
  | inr (q, at) ↦
      let q' : Queue = record q { memqueue_binders = remove_binder b.address q.memqueue_binders } in
      unbind_loop-Ledger bs (store_queue b.memqueue q' s) s' (rw (unbind_loop, at) at e)
        (store_queue-Ledger b.memqueue q q' at refl l)
]

pub unbind-Ledger :
    {held : Ptr → ℕ → ℕ} (c : Ptr) (s s' : Ins)
    → memqueue_unbind_all c s ≡ ok s'
    → Ledger held s
    → Ledger held s'
unfolding memqueue_unbind_all
unbind-Ledger c s s' e l =
    let (b, there, rest) = >>=-eq-ok (deref (s.clis c)) _ e in
    let b' : CliBinder = record b { memqueues = [] } in
    unbind_loop-Ledger b.memqueues (store_cli c b' s) s' rest
      (store_cli-Ledger c b b' (deref-some _ b there) refl l)

pub Resched-Ledger :
    {held : Ptr → ℕ → ℕ} {s : Ins} (p : Ptr) (q : Queue) (s' : Ins)
    → s.queues p ≡ some q
    → Resched p q s s'
    → Ledger held s
    → Ledger held s'
Resched-Ledger p q s' at r l =
    same-Ledger s' r.queues r.clis r.next_ptr
      (store_queue-Ledger p q (record q { expiry_node = r.node }) at refl l)

pub resched-Ledger :
    {held : Ptr → ℕ → ℕ} (rb : RbTrees) (now : ℕ) (p : Ptr) (s s' : Ins)
    → memqueue_resched rb now p s ≡ ok s'
    → Ledger held s
    → Ledger held s'
resched-Ledger rb now p s s' e l =
    let (q, at, r) = memqueue_resched_made rb now p s s' e in Resched-Ledger p q s' at r l

pub clear-Ledger :
    {held : Ptr → ℕ → ℕ} (p : Ptr) (s : Ins) → Ledger held s → Ledger held (clear_expiry_node p s)
unfolding clear_expiry_node
clear-Ledger p s l = elim (Option-cases (s.queues p)) [
  | inl gone ↦ rw (clear_expiry_node, gone) l
  | inr (q, at) ↦
      rw (clear_expiry_node, at)
        (store_queue-Ledger p q (record q { expiry_node = none }) at refl l)
]
