-- ===== src/Memqueue/Ledger/Taken.antt =====
-- References that are taken: `memqueue_msg_retain`, `cli_binder_enqueue_msg` and what calls it, of
-- src/memqueue.c.
use memqueue.Base.{
  ℕ, ◌+◌, ◌≤◌, ◌<◌, ◌≡◌, refl, ap, List, [], ◌∷◌, ◌++◌, none, some, ◌==◌, Bool-cases, inl, inr,
  arith, ok, >>=-eq-ok, ok-injective, deref, ne_==, ◌>>=◌, true,
}
use mathlib.Core.Path.{subst}
use memqueue.Base.Int.{ℤ, pos, leb_ℤ}
use memqueue.Memqueue.Types.{
  Ptr, Msg, MsgRef, Queue, Binder, CliBinder, Ins, update, store_queue, store_cli,
}
use memqueue.Memqueue.Refs.{find_msg, memqueue_msg_retain}
use memqueue.Memqueue.Refs.Counts.{retained}
use memqueue.Memqueue.Message.{cli_binder_enqueue_msg, cli_wakeup, notify_binders}
use memqueue.Memqueue.Poll.{cli_binder_enqueue_msgs}
use memqueue.Memqueue.Invariant.Retain.{ref_to, memqueue_msg_retain_lem}
use memqueue.Base.{deref-some}
use memqueue.Memqueue.Steps.Kept.{same_result}
use memqueue.Memqueue.Steps.Served.{enqueue_msgs-keeps}
use memqueue.Memqueue.Ledger.{hit, occurs, refs_at, numbered, Ledger}
use memqueue.Memqueue.Ledger.Sums.{owed-store_cli, occurs-append}
use memqueue.Memqueue.Ledger.Messages.{refs_of-set, numbered-set}

-- A client that is there lies below the address that comes next.
pub below_next :
    {held : Ptr → ℕ → ℕ} {s : Ins} (c : Ptr) (b : CliBinder)
    → Ledger held s
    → s.clis c ≡ some b
    → c < s.next_ptr
below_next c b l there = ground (arith, l.fresh c)

pub fresh-store_cli :
    {held : Ptr → ℕ → ℕ} {s : Ins} (c : Ptr) (b b' : CliBinder)
    → Ledger held s
    → s.clis c ≡ some b
    → (a : Ptr) → s.next_ptr ≤ a
    → update s.clis c (some b') a ≡ none
fresh-store_cli {s = s} c b b' l there a k =
    rw (ne_== a c (λ e. omega (arith, e, below_next c b l there, k))) (l.fresh a k)

-- The messages of a queue that is written to have their numbers once if the queue's have.
pub once-store_queue :
    {held : Ptr → ℕ → ℕ} {s : Ins} (p : Ptr) (q' : Queue)
    → Ledger held s
    → ((j : ℕ) → numbered j q'.msg_queue ≤ 1)
    → (a : Ptr) (x : Queue) → update s.queues p (some q') a ≡ some x
    → (j : ℕ) → numbered j x.msg_queue ≤ 1
once-store_queue p q' l k a x e j = elim (Bool-cases (a == p)) [
  | inl same ↦
      let new : q' ≡ x = ground (arith, e, same) in
      subst (λ y. numbered j y.msg_queue ≤ 1) new (k j)
  | inr other ↦ l.once a x (rw other at e) j
]

module _ (s : Ins) (p i : ℕ) (m : Msg) (q : Queue) (at : s.queues p ≡ some q)
    (found : find_msg i q.msg_queue ≡ some m) where
  abbrev m' : Msg
  m' = record m { ref_count = m.ref_count + 1 }

  pub refs_at-retained :
      (a j : ℕ)
      → refs_at (update s.queues p (some (retained i m q)) a) j
        ≡ refs_at (s.queues a) j + hit p i a j
  refs_at-retained a j = elim (Bool-cases (a == p)) [
    | inl same ↦
        let here : s.queues a ≡ some q = ground (arith, at, same) in
        let set = refs_of-set i m m' refl j q.msg_queue found in
        rw (same, here) (ground (arith, set, same))
    | inr other ↦ rw other (ground (arith, other))
  ]

  numbered-retained :
      {held : Ptr → ℕ → ℕ} → Ledger held s → (j : ℕ) → numbered j (retained i m q).msg_queue ≤ 1
  numbered-retained l j =
      omega (arith, l.once p q at j, numbered-set i m m' refl j q.msg_queue found)

  -- A reference that is taken by somebody who is no client.
  pub retained-Ledger :
      {held : Ptr → ℕ → ℕ}
      → Ledger held s
      → Ledger (λ a j. hit p i a j + held a j) (store_queue p (retained i m q) s)
  retained-Ledger l = record {
    exact = λ a j. omega (arith, l.exact a j, refs_at-retained a j);
    once = once-store_queue p (retained i m q) l (numbered-retained l);
    fresh = l.fresh;
  }

  -- A reference that is taken for a client, who has it in the list of pending messages.
  pub handed-Ledger :
      {held : Ptr → ℕ → ℕ} (c : Ptr) (b : CliBinder)
      → s.clis c ≡ some b
      → Ledger held s
      → Ledger held (
          store_queue p
            (retained i m q)
            (store_cli c (record b { pending_msgs = b.pending_msgs ++ ref_to p i ∷ [] }) s))
  handed-Ledger c b there l =
      let b' : CliBinder = record b { pending_msgs = b.pending_msgs ++ ref_to p i ∷ [] } in
      record {
        exact = λ a j. omega (
          arith,
          l.exact a j,
          refs_at-retained a j,
          owed-store_cli s c b b' a j there (below_next c b l there),
          occurs-append b.pending_msgs (ref_to p i ∷ []) a j,
        );
        once = once-store_queue p (retained i m q) l (numbered-retained l);
        fresh = fresh-store_cli c b b' l there;
      }

-- A client who changes in no pending message.
pub store_cli-Ledger :
    {held : Ptr → ℕ → ℕ} {s : Ins} (c : Ptr) (b b' : CliBinder)
    → s.clis c ≡ some b
    → b'.pending_msgs ≡ b.pending_msgs
    → Ledger held s
    → Ledger held (store_cli c b' s)
store_cli-Ledger {s = s} c b b' there same l = record {
  exact = λ a j. omega (
    arith,
    l.exact a j,
    owed-store_cli s c b b' a j there (below_next c b l there),
    ap (λ rs. occurs rs a j) same,
  );
  once = l.once;
  fresh = fresh-store_cli c b b' l there;
}

enqueue_msg-Ledger :
    {held : Ptr → ℕ → ℕ} (c : Ptr) (r : MsgRef) (s s' : Ins)
    → cli_binder_enqueue_msg c r s ≡ ok s'
    → Ledger held s
    → Ledger held s'
unfolding cli_binder_enqueue_msg memqueue_msg_retain
enqueue_msg-Ledger c r s s' e l =
    let (b, there, e₁) = >>=-eq-ok (deref (s.clis c)) _ e in
    let (q, at, e₂) = >>=-eq-ok (deref (s.queues r.memqueue)) _ e₁ in
    let (m, found, _) = >>=-eq-ok (deref (find_msg r.msg_id q.msg_queue)) _ e₂ in
    let b' : CliBinder = record b { pending_msgs = b.pending_msgs ++ r ∷ [] } in
    same_result (Ledger _)
      (memqueue_msg_retain_lem r.memqueue r.msg_id m q (store_cli c b' s) (deref-some _ q at)
        (deref-some _ m found))
      e₁
      (handed-Ledger s r.memqueue r.msg_id m q (deref-some _ q at) (deref-some _ m found) c b
        (deref-some _ b there) l)

-- Every delivery to the binders is a reference.
pub notify_binders-Ledger :
    {held : Ptr → ℕ → ℕ} (bs : List Binder) (rev : ℕ) (r : MsgRef) (s s' : Ins)
    → notify_binders bs rev r s ≡ ok s'
    → Ledger held s
    → Ledger held s'
unfolding notify_binders cli_wakeup
notify_binders-Ledger [] rev r s s' e l = subst (Ledger _) (ok-injective e) l
notify_binders-Ledger {held} (b ∷ bs) rev r s s' e l = elim (Bool-cases (leb_ℤ b.rev (pos rev))) [
  | inr skip ↦ notify_binders-Ledger bs rev r s s' (rw skip at e) l
  | inl wanted ↦
      let c = b.cli_binder in
      let (s₂, both, rest) =
        >>=-eq-ok (cli_binder_enqueue_msg c r s >>= cli_wakeup c) (notify_binders bs rev r)
          (rw wanted at e) in
      let (s₁, given, woken) = >>=-eq-ok (cli_binder_enqueue_msg c r s) (cli_wakeup c) both in
      let (d, there, e₂) = >>=-eq-ok (deref (s₁.clis c)) _ woken in
      let l₂ =
        store_cli-Ledger c d (record d { signalled = true }) (deref-some _ d there) refl
          (enqueue_msg-Ledger c r s s₁ given l) in
      notify_binders-Ledger bs rev r s₂ s' rest (subst (Ledger held) (ok-injective e₂) l₂)
]

-- What a poll is given at once.
pub enqueue_msgs-Ledger :
    {held : Ptr → ℕ → ℕ} (c p : Ptr) (rev latest : ℤ) (n : ℕ) (s s' : Ins)
    → cli_binder_enqueue_msgs c p rev latest s ≡ ok (n, s')
    → Ledger held s
    → Ledger held s'
enqueue_msgs-Ledger {held} c p rev latest =
    enqueue_msgs-keeps (Ledger held) c p rev latest (enqueue_msg-Ledger c)
