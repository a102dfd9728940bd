-- ===== src/Memqueue/Ledger/Made.antt =====
-- Queues and messages that come and queues that go: `memqueue_create`, `memqueue_msg_create` and
-- `memqueue_release` of src/memqueue.c.
use memqueue.Base.{
  ℕ, ◌+◌, ◌-◌, ◌<◌, ◌≡◌, ◌≢◌, refl, ap, ◌∙◌, [], ◌∷◌, Option, none, some, Text, ◌==◌, if◌then◌else◌,
  Bool-cases, inl, inr, arith, ok, >>=-eq-ok, ok-injective, deref, ==_iff, lt→ltb, Run,
}
use mathlib.Core.Path.{subst}
use memqueue.Base.Int.{ℤ}
use memqueue.Memqueue.Types.{Ptr, Queue, Ins, RbTrees, store_queue}
use memqueue.Memqueue.Refs.{find_msg, memqueue_retain, memqueue_release}
use memqueue.Memqueue.Sched.{memqueue_type, obj_sched_expire, set_queue_node}
use memqueue.Memqueue.Message.{
  int_max, is_kept, new_msg, push_msg, next_msg_id, memqueue_msg_create,
}
use memqueue.Memqueue.Args.{CreateArgs}
use memqueue.Memqueue.Handlers.{memqueue_init, new_queue, memqueue_create}
use memqueue.Memqueue.Invariant.{Inv, update_at}
use memqueue.Memqueue.Invariant.Retain.{ref_to}
use memqueue.Memqueue.Invariant.Timed.{sched_queue_made}
use memqueue.Memqueue.Invariant.Create.{sched_if_total}
use memqueue.Base.{deref-some}
use memqueue.Memqueue.Ledger.{hit, total, refs_at, refs_of, numbered, Ledger}
use memqueue.Memqueue.Ledger.Messages.{refs_of-append, numbered-append, numbered-find}
use memqueue.Memqueue.Ledger.Taken.{once-store_queue, notify_binders-Ledger}
use memqueue.Memqueue.Ledger.Released.{drop_queue_ref-Ledger}
use memqueue.Memqueue.Ledger.Kept.{same-Ledger, store_queue-Ledger}

-- Nothing is counted when the server starts.
pub memqueue_init-Ledger : Ledger (λ p i. 0) memqueue_init
unfolding memqueue_init total
memqueue_init-Ledger = record {
  exact = λ p i. refl;
  once = λ p q e. absurd (cc);
  fresh = λ c k. refl;
}

-- A queue without messages at an address where none was.
new_queue-Ledger :
    {held : Ptr → ℕ → ℕ} {s : Ins} (p : Ptr) (q : Queue)
    → s.queues p ≡ none
    → q.msg_queue ≡ []
    → Ledger held s
    → Ledger held (store_queue p q s)
unfolding refs_of numbered
new_queue-Ledger {s = s} p q vacant empty l = record {
  exact = λ a i. elim (Bool-cases (a == p)) [
    | inl hit ↦
        let here : refs_at (s.queues a) i ≡ 0 =
          ap (λ x. refs_at x i) (ap s.queues ((==_iff a p).0 hit) ∙ vacant) in
        rw (hit, empty) (omega (arith, here, l.exact a i))
    | inr miss ↦ rw miss (l.exact a i)
  ];
  once = once-store_queue p q l (λ j. rw empty (omega arith));
  fresh = l.fresh;
}

pub set_queue_node-msg_queue :
    (n : Option Ptr) (q : Queue) → (set_queue_node n q).msg_queue ≡ q.msg_queue
set_queue_node-msg_queue none q = refl
set_queue_node-msg_queue (some n) q = refl

-- A reference of a queue that is taken.
pub retain_queue-Ledger :
    {held : Ptr → ℕ → ℕ} (p : Ptr) (s s' : Ins)
    → memqueue_retain p s ≡ ok s'
    → Ledger held s
    → Ledger held s'
unfolding memqueue_retain
retain_queue-Ledger p s s' e l =
    let (q, at, done) = >>=-eq-ok (deref (s.queues p)) _ e in
    subst (Ledger _) (ok-injective done)
      (store_queue-Ledger p q (record q { ref_count = q.ref_count + 1 }) (deref-some _ q at) refl l)

module _ (rb : RbTrees) where
  sched_queue-Ledger :
      {held : Ptr → ℕ → ℕ} (now : ℕ) (p : Ptr) (q : Queue) (msecs : ℕ) (s s' : Ins)
      → s.queues p ≡ some q
      → obj_sched_expire rb now (memqueue_type p) msecs s ≡ ok s'
      → Ledger held s
      → Ledger held s'
  sched_queue-Ledger now p q msecs s s' at e l =
      let t = sched_queue_made rb now p q msecs s s' at e in
      let q' = set_queue_node t.node q in
      same-Ledger s' t.queues t.clis t.next_ptr
        (store_queue-Ledger p q q' at (set_queue_node-msg_queue t.node q) l)

  pub create-Ledger :
      {held : Ptr → ℕ → ℕ} (now : ℕ) (a : CreateArgs) (id : Text) (s s' : Ins)
      → memqueue_create rb now a id s ≡ ok s'
      → s.queues s.next_ptr ≡ none
      → Ledger held s
      → Ledger held s'
  unfolding memqueue_create memqueue_retain
  create-Ledger {held} now a id s s' e vacant l =
      let p = s.next_ptr in
      let s₁ : Ins = store_queue p (new_queue a id) (record s { next_ptr = p + 1 }) in
      let l₀ : Ledger held (record s { next_ptr = p + 1 }) =
        same-Ledger _ refl refl (omega arith) l in
      let l₁ : Ledger held s₁ = new_queue-Ledger p (new_queue a id) vacant refl l₀ in
      let sched : Run Ins =
        if a.expiry == 0 then ok s₁ else obj_sched_expire rb now (memqueue_type p) a.expiry s₁ in
      let (s₂, run, e₁) = >>=-eq-ok sched _ e in
      let (s₃, kept, done) = >>=-eq-ok (memqueue_retain p s₂) _ e₁ in
      let l₂ : Ledger held s₂ = elim (Bool-cases (a.expiry == 0)) [
        | inl never ↦ subst (Ledger held) (ok-injective (rw never at run)) l₁
        | inr timed ↦
            sched_queue-Ledger now p (new_queue a id) a.expiry s₁ s₂
              (update_at s.queues p (some (new_queue a id))) (rw timed at run) l₁
      ] in
      let l₃ = retain_queue-Ledger p s₂ s₃ kept l₂ in
      subst (Ledger held) (ok-injective done) (same-Ledger _ refl refl (omega arith) l₃)

  -- What a message is held by at its creation: its deadline, or that it never expires.
  abbrev pub kept_refs : Ptr → ℕ → ℤ → Ptr → ℕ → ℕ
  kept_refs p i msecs a j = if is_kept msecs then hit p i a j else 0

  push_msg-Ledger :
      {held : Ptr → ℕ → ℕ} {s : Ins} (p : Ptr) (q : Queue) (msecs : ℤ) (body : Text) (i : ℕ)
      → s.queues p ≡ some q
      → find_msg i q.msg_queue ≡ none
      → Ledger held s
      → Ledger
          (λ a j. kept_refs p i msecs a j + held a j)
          (store_queue p (push_msg q (new_msg q msecs body i)) s)
  unfolding refs_of numbered
  push_msg-Ledger {s = s} p q msecs body i at new l =
      let m = new_msg q msecs body i in
      record {
        exact = λ a j. elim (Bool-cases (a == p)) [
          | inl same ↦
              let here : refs_at (s.queues a) j ≡ refs_of j q.msg_queue =
                ap (λ x. refs_at x j) (ap s.queues ((==_iff a p).0 same) ∙ at) in
              rw same
                (ground (arith, here, l.exact a j, refs_of-append j q.msg_queue (m ∷ []), same))
          | inr other ↦ rw other (ground (arith, l.exact a j, other))
        ];
        once = once-store_queue p (push_msg q m) l (λ j. ground (
          arith,
          l.once p q at j,
          numbered-append j q.msg_queue (m ∷ []),
          numbered-find i q.msg_queue new,
        ));
        fresh = l.fresh;
      }

  -- A new message is counted for its deadline and once for each delivery.
  pub post-Ledger :
      {held : Ptr → ℕ → ℕ} (now : ℕ) (p : Ptr) (q : Queue) (msecs : ℤ) (body : Text) (s s' : Ins)
      → s.queues p ≡ some q
      → q.rev < int_max
      → find_msg (next_msg_id s) q.msg_queue ≡ none
      → memqueue_msg_create rb now p msecs body s ≡ ok s'
      → Ledger held s
      → Ledger (λ a j. kept_refs p (next_msg_id s) msecs a j + held a j) s'
  unfolding memqueue_msg_create
  post-Ledger {held} now p q msecs body s s' at room new e l =
      let i = next_msg_id s in
      let m = new_msg q msecs body i in
      let s₁ : Ins = record s { unique_msg_id = i } in
      let (s₂, run, same) = sched_if_total rb now (ref_to p i) msecs s₁ in
      let at₂ : s₂.queues p ≡ some q = rw same.queues at in
      let l₂ : Ledger held s₂ = same-Ledger s₂ same.queues same.clis same.next_ptr l in
      notify_binders-Ledger q.memqueue_binders (q.rev + 1) (ref_to p i)
        (store_queue p (push_msg q m) s₂) s' (rw (at, lt→ltb q.rev int_max room, run, at₂) at e)
        (push_msg-Ledger p q msecs body i at₂ new l₂)

-- A reference that the queue's creation holds, given back.
pub release_queue-Ledger :
    {base : Ptr → ℕ} {held : Ptr → ℕ → ℕ} (p : Ptr) (s s' : Ins)
    → memqueue_release p s ≡ ok s'
    → base p ≢ 0
    → Inv base s
    → Ledger held s
    → Ledger held s'
unfolding memqueue_release
release_queue-Ledger {base} p s s' e n v l =
    let (q, there, drop) = >>=-eq-ok (deref (s.queues p)) _ e in
    let at = deref-some _ q there in
    let k = v.queue p q at in
    drop_queue_ref-Ledger (base p - 1) p q s s' at
      (record {
        counted = k.counted;
        held = omega (arith, k.held, n);
        revs = k.revs;
        table = k.table;
        idle = k.idle;
      })
      drop l
