-- ===== src/Memqueue/Ledger/Released.antt =====
-- References that are given back: `memqueue_release`, `memqueue_msg_release` and
-- `cli_binder_release_pending_msgs` of src/memqueue.c.
use memqueue.Base.{
  ℕ, ◌+◌, ◌-◌, ◌≤◌, ◌≡◌, ◌≢◌, refl, ap, sym, ◌∙◌, List, [], ◌∷◌, Option, none, some, ◌==◌,
  if◌then◌else◌, Bool-cases, Option-cases, inl, inr, arith, ok, >>=-eq-ok, ok-injective, ==_iff,
  ne_==,
}
use mathlib.Core.Path.{subst}
use memqueue.Hash.{traverse}
use memqueue.Memqueue.Types.{Ptr, Msg, MsgRef, Queue, CliBinder, Ins, update, store_cli}
use memqueue.Memqueue.Refs.{
  find_msg, free_queue, drop_queue_ref, memqueue_release, memqueue_msg_release,
}
use memqueue.Memqueue.Refs.Lists.{refs}
use memqueue.Memqueue.Refs.Counts.{QueueOk, lowered, lowered-QueueOk}
use memqueue.Memqueue.Poll.{release_loop, cli_binder_release_pending_msgs}
use memqueue.Memqueue.Invariant.{Inv, ==_refl, update_at}
use memqueue.Memqueue.Invariant.Retain.{ref_to, store_cli-Inv}
use memqueue.Memqueue.Invariant.Release.{memqueue_msg_release-Keeps, drop_queue_ref-store}
use memqueue.Memqueue.Ledger.{hit, occurs, owed, refs_at, refs_of, numbered, Ledger}
use memqueue.Memqueue.Ledger.Sums.{owed-store_cli}
use memqueue.Memqueue.Ledger.Messages.{
  refs_of-le, find-refs_of, refs_of-set, numbered-set, refs_of-erase, numbered-erase,
}
use memqueue.Memqueue.Ledger.Taken.{below_next, fresh-store_cli}

-- What is at the queue's address after a reference was given back.
abbrev pub left_over : Queue → Option Queue
left_over q = if q.ref_count - 1 == 0 then none else some (record q { ref_count = q.ref_count - 1 })

pub record Dropped (p : Ptr) (q : Queue) (s s' : Ins) : Type 0 where
  pub queues : s'.queues ≡ update s.queues p (left_over q)
  pub clis : s'.clis ≡ s.clis
  pub next_ptr : s'.next_ptr ≡ s.next_ptr
  pub orphans : q.ref_count - 1 ≡ 0 → s'.orphans p ≡ q.memqueue_binders

pub drop_queue_ref-Dropped :
    (p : Ptr) (q : Queue) (s s' : Ins) → drop_queue_ref p q s ≡ ok s' → Dropped p q s s'
unfolding drop_queue_ref free_queue
drop_queue_ref-Dropped p q s s' e = elim (Bool-cases (q.ref_count == 0)) [
  | inl none_left ↦ absurd (cc (rw none_left at e))
  | inr some_left ↦ elim (Bool-cases (q.ref_count - 1 == 0)) [
    | inl last ↦
        let (items, _, done) = >>=-eq-ok (traverse q.consumers) _ (rw (some_left, last) at e) in
        let same = ok-injective done in
        record {
          queues = rw last (sym (ap (λ x. x.queues) same));
          clis = sym (ap (λ x. x.clis) same);
          next_ptr = sym (ap (λ x. x.next_ptr) same);
          orphans = λ _. sym (ap (λ x. x.orphans p) same) ∙ rw (==_refl p) refl;
        }
    | inr more ↦
        let same = ok-injective (rw (some_left, more) at e) in
        record {
          queues = rw more (sym (ap (λ x. x.queues) same));
          clis = sym (ap (λ x. x.clis) same);
          next_ptr = sym (ap (λ x. x.next_ptr) same);
          orphans = λ none_left. absurd (ground (arith, more, none_left));
        }
  ]
]

-- A queue that gives a reference back, with the messages of `q'` in place of those of `q`, which make
-- up for what `held'` has more than `held`.
record GivesBack (held held' : Ptr → ℕ → ℕ) (s : Ins) (p : Ptr) (q q' : Queue) (owing : ℕ → ℕ)
    : Type 0 where
  at : s.queues p ≡ some q
  ledger : Ledger held' s
  empty : q'.ref_count - 1 ≡ 0 → refs q'.msg_queue ≡ 0
  fewer : (j : ℕ) → refs_of j q'.msg_queue + owing j ≡ refs_of j q.msg_queue
  once : (j : ℕ) → numbered j q'.msg_queue ≤ numbered j q.msg_queue
  less : (a j : ℕ) → held' a j ≡ (if a == p then owing j else 0) + held a j

module _ {held held' : Ptr → ℕ → ℕ} {s : Ins} {p : Ptr} {q q' : Queue} {owing : ℕ → ℕ}
    (g : GivesBack held held' s p q q' owing) where
  refs_at-left_over : (j : ℕ) → refs_at (left_over q') j ≡ refs_of j q'.msg_queue
  refs_at-left_over j = elim (Bool-cases (q'.ref_count - 1 == 0)) [
    | inl last ↦ rw last (omega (arith, g.empty ((==_iff _ _).0 last), refs_of-le j q'.msg_queue))
    | inr more ↦ rw more refl
  ]

  exact-Dropped : (a j : ℕ) → refs_at (update s.queues p (left_over q') a) j ≡ owed s a j + held a j
  exact-Dropped a j = elim (Bool-cases (a == p)) [
    | inl same ↦
        let here : refs_at (s.queues a) j ≡ refs_of j q.msg_queue =
          ap (λ x. refs_at x j) (ap s.queues ((==_iff a p).0 same) ∙ g.at) in
        let less : held' a j ≡ owing j + held a j = rw same at (g.less a j) in
        let all = g.ledger.exact a j in
        rw same (omega (arith, refs_at-left_over j, g.fewer j, less, all, here))
    | inr other ↦
        let less : held' a j ≡ 0 + held a j = rw other at (g.less a j) in
        let all = g.ledger.exact a j in rw other (omega (arith, less, all))
  ]

  once-Dropped :
      (a : Ptr) (x : Queue)
      → update s.queues p (left_over q') a ≡ some x
      → (j : ℕ) → numbered j x.msg_queue ≤ 1
  once-Dropped a x e j = elim (Bool-cases (a == p)) [
    | inl same ↦ elim (Bool-cases (q'.ref_count - 1 == 0)) [
      | inl last ↦ absurd (cc (rw (same, last) at e))
      | inr more ↦
          let here : record q' { ref_count = q'.ref_count - 1 } ≡ x = cc (rw (same, more) at e) in
          let few : numbered j q'.msg_queue ≤ 1 =
            omega (arith, g.once j, g.ledger.once p q g.at j) in
          subst (λ y. numbered j y.msg_queue ≤ 1) here few
    ]
    | inr other ↦ g.ledger.once a x (rw other at e) j
  ]

  Dropped-Ledger : (s' : Ins) → Dropped p q' s s' → Ledger held s'
  Dropped-Ledger s' d = record {
    exact = rw (d.queues, d.clis, d.next_ptr) exact-Dropped;
    once = rw d.queues once-Dropped;
    fresh = rw (d.clis, d.next_ptr) g.ledger.fresh;
  }

-- Giving back a reference of a queue that is in order and keeps its messages.
pub drop_queue_ref-Ledger :
    {held : Ptr → ℕ → ℕ} (base : ℕ) (p : Ptr) (q : Queue) (s s' : Ins)
    → s.queues p ≡ some q
    → QueueOk base (record q { ref_count = q.ref_count - 1 })
    → drop_queue_ref p q s ≡ ok s'
    → Ledger held s
    → Ledger held s'
drop_queue_ref-Ledger {held} base p q s s' at k e l =
    let g : GivesBack held held s p q q (λ _. 0) = record {
      at = at;
      ledger = l;
      empty = λ z. omega (arith, z, k.held);
      fewer = λ j. omega arith;
      once = λ j. omega arith;
      less = λ a j. ground arith;
    } in
    Dropped-Ledger g s' (drop_queue_ref-Dropped p q s s' e)

module _ (base i : ℕ) (m : Msg) (q : Queue) (k : QueueOk base q)
    (found : find_msg i q.msg_queue ≡ some m) (n : m.ref_count ≢ 0) where
  refs_of-lowered :
      (j : ℕ)
      → refs_of j (lowered i m q).msg_queue + (if i == j then 1 else 0) ≡ refs_of j q.msg_queue
  refs_of-lowered j = elim (Bool-cases (m.ref_count - 1 == 0)) [
    | inl last ↦ rw last (ground (arith, refs_of-erase i m j q.msg_queue found, last))
    | inr more ↦
        let m' : Msg = record m { new = 0; ref_count = m.ref_count - 1 } in
        rw more (ground (arith, refs_of-set i m m' refl j q.msg_queue found, more))
  ]

  numbered-lowered : (j : ℕ) → numbered j (lowered i m q).msg_queue ≤ numbered j q.msg_queue
  numbered-lowered j = elim (Bool-cases (m.ref_count - 1 == 0)) [
    | inl last ↦ rw last (numbered-erase i m j q.msg_queue)
    | inr more ↦
        let m' : Msg = record m { new = 0; ref_count = m.ref_count - 1 } in
        rw more (omega (arith, numbered-set i m m' refl j q.msg_queue found))
  ]

  lowered-GivesBack :
      {held : Ptr → ℕ → ℕ} {s : Ins} (p : Ptr)
      → s.queues p ≡ some q
      → Ledger (λ a j. hit p i a j + held a j) s
      → GivesBack held
          (λ a j. hit p i a j + held a j)
          s
          p
          q
          (lowered i m q)
          (λ j. if i == j then 1 else 0)
  lowered-GivesBack p at l =
      let low = (lowered-QueueOk base i m q k found n).0 in
      record {
        at = at;
        ledger = l;
        empty = λ z. omega (arith, z, low.held);
        fewer = refs_of-lowered;
        once = numbered-lowered;
        less = λ a j. ground arith;
      }

-- A message of which somebody holds a reference is in its queue.
pub counted_there :
    {held : Ptr → ℕ → ℕ} (s : Ins) (p i : ℕ)
    → Ledger held s
    → owed s p i + held p i ≢ 0
    → (q : Queue) × (m : Msg) × (s.queues p ≡ some q)
      × (find_msg i q.msg_queue ≡ some m)
      × (m.ref_count ≡ owed s p i + held p i)
counted_there {held} s p i l n =
    let all = l.exact p i in
    elim (Option-cases (s.queues p)) [
      | inl gone ↦
          let z : refs_at (s.queues p) i ≡ 0 = ap (λ x. refs_at x i) gone in
          absurd (n (omega (arith, z, all)))
      | inr (q, at) ↦
          let z : refs_at (s.queues p) i ≡ refs_of i q.msg_queue = ap (λ x. refs_at x i) at in
          let (m, found, count) =
            find-refs_of i q.msg_queue (l.once p q at i) (λ e. n (omega (arith, e, z, all))) in
          (q, m, at, found, omega (arith, count, z, all))
    ]

pub release_drop :
    (p i : ℕ) (m : Msg) (q : Queue) (s s' : Ins)
    → s.queues p ≡ some q
    → find_msg i q.msg_queue ≡ some m
    → m.ref_count ≢ 0
    → memqueue_msg_release (ref_to p i) s ≡ ok s'
    → drop_queue_ref p (lowered i m q) s ≡ ok s'
unfolding memqueue_msg_release memqueue_release
release_drop p i m q s s' at found n e =
    sym (drop_queue_ref-store p (lowered i m q) (lowered i m q) s)
    ∙ rw (at, found, ne_== m.ref_count 0 n, ==_refl p) at e

-- In a state in order in which the references are counted right, one that is held can be given back:
-- nothing faults, and the others are still counted right.
pub memqueue_msg_release-Ledger :
    {base : Ptr → ℕ} {held : Ptr → ℕ → ℕ} {s : Ins} (p i : ℕ)
    → Inv base s
    → Ledger (λ a j. hit p i a j + held a j) s
    → (s' : Ins) × (memqueue_msg_release (ref_to p i) s ≡ ok s')
      × Inv base s'
      × Ledger held s'
      × (s'.clis ≡ s.clis)
memqueue_msg_release-Ledger {base} {held} {s} p i v l =
    let one : hit p i p i ≡ 1 = ground arith in
    let (q, m, at, found, count) = counted_there s p i l (λ z. omega (arith, z, one)) in
    let n : m.ref_count ≢ 0 = λ z. omega (arith, z, one, count) in
    let (s', run, inv) = memqueue_msg_release-Keeps p i m q v at found n in
    let drop = release_drop p i m q s s' at found n run in
    let g = lowered-GivesBack (base p) i m q (v.queue p q at) found n p at l in
    let d = drop_queue_ref-Dropped p (lowered i m q) s s' drop in
    (s', run, inv, Dropped-Ledger g s' d, d.clis)

-- A client that lets go of its messages one by one.
release_loop-Ledger :
    {base : Ptr → ℕ} {held : Ptr → ℕ → ℕ} (rs : List MsgRef) (s : Ins)
    → Inv base s
    → Ledger (λ a j. occurs rs a j + held a j) s
    → (s' : Ins) × (release_loop rs s ≡ ok s') × Inv base s' × Ledger held s' × (s'.clis ≡ s.clis)
unfolding release_loop
release_loop-Ledger [] s v l = (
  s,
  refl,
  v,
  record { exact = λ a j. omega (arith, l.exact a j); once = l.once; fresh = l.fresh },
  refl,
)
release_loop-Ledger {held = held} (r ∷ rs) s v l =
    let l₁ : Ledger (λ a j. hit r.memqueue r.msg_id a j + (occurs rs a j + held a j)) s = record {
      exact = λ a j. omega (arith, l.exact a j);
      once = l.once;
      fresh = l.fresh;
    } in
    let (s₁, run, v₁, l₂, c₁) = memqueue_msg_release-Ledger r.memqueue r.msg_id v l₁ in
    let (s', loop, v', l', c') = release_loop-Ledger rs s₁ v₁ l₂ in
    (s', rw run loop, v', l', c' ∙ c₁)

-- In a state in order in which the references are counted right, every client that is there can let
-- go of its pending messages: nothing faults, it has none afterwards, and the references of everybody
-- else are still counted right.
pub cli_binder_release_pending_msgs-Ledger :
    {base : Ptr → ℕ} {held : Ptr → ℕ → ℕ} {s : Ins} (c : Ptr) (b : CliBinder)
    → Inv base s
    → Ledger held s
    → s.clis c ≡ some b
    → (s' : Ins) × (cli_binder_release_pending_msgs c s ≡ ok s')
      × Inv base s'
      × Ledger held s'
      × (s'.clis c ≡ some (record b { pending_msgs = [] }))
unfolding cli_binder_release_pending_msgs
cli_binder_release_pending_msgs-Ledger {held = held} {s = s} c b v l there =
    let b' : CliBinder = record b { pending_msgs = [] } in
    let l₁ : Ledger (λ a j. occurs b.pending_msgs a j + held a j) (store_cli c b' s) = record {
      exact = λ a j.
          omega (arith, l.exact a j, owed-store_cli s c b b' a j there (below_next c b l there));
      once = l.once;
      fresh = fresh-store_cli c b b' l there;
    } in
    let (s', run, v', l', c') =
      release_loop-Ledger b.pending_msgs (store_cli c b' s) (store_cli-Inv v c b b' there) l₁ in
    (s', rw there run, v', l', (λ k. c' k c) ∙ update_at s.clis c (some b'))
