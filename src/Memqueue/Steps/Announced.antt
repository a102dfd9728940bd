-- ===== src/Memqueue/Steps/Announced.antt =====
-- A consumer that joins a queue of src/memqueue.c leaves the state in order, the references counted and
-- the binders linked.
use mathlib.Core.Path.{subst, fun_ext}
use memqueue.Base.{
  ℕ, ◌+◌, ◌-◌, ◌<◌, ◌≡◌, ◌≢◌, refl, ◌∙◌, ◌++◌, none, some, Text, codes, ◌==◌, inl, inr, arith, ok,
  deref, >>=-eq-ok, ok-injective, false,
}
use memqueue.Base.Int.{pos}
use memqueue.Hash.{h_get}
use memqueue.Hash.Lookup.{h_insert-IsValid, h_insert_new}
use memqueue.Memqueue.Types.{Ptr, Queue, Ins, RbTrees}
use memqueue.Memqueue.Refs.{find_msg, memqueue_retain}
use memqueue.Memqueue.Refs.Counts.{QueueOk}
use memqueue.Memqueue.Message.{int_max, next_msg_id}
use memqueue.Memqueue.Poll.{memqueue_refresh_consumer}
use memqueue.Memqueue.Invariant.{Inv, ==_refl, update_at, same-Inv}
use memqueue.Memqueue.Invariant.Create.{memqueue_msg_create-Notified}
use memqueue.Memqueue.Invariant.Delete.{given_back, rebased-Inv}
use memqueue.Memqueue.Ledger.{Ledger}
use memqueue.Memqueue.Ledger.Kept.{same-Ledger, store_queue-Ledger}
use memqueue.Memqueue.Ledger.Made.{kept_refs, post-Ledger, retain_queue-Ledger}
use memqueue.Memqueue.Links.Kept.{SameBinders, SameBinders-trans, same-SameBinders}
use memqueue.Memqueue.Links.Same.{store_queue-SameBinders}
use memqueue.Memqueue.Links.Made.{post-SameBinders}
use memqueue.Base.{deref-some}
use memqueue.Memqueue.Steps.Kept.{same_result}
use memqueue.Memqueue.Steps.Joined.{with_consumer, joining, refresh_parts}

-- A reference of a queue that its creation has once more.
retained-Inv :
    {base base' : Ptr → ℕ} (p : Ptr) (s s' : Ins)
    → memqueue_retain p s ≡ ok s'
    → ((a : Ptr) → (a == p) ≡ false → base' a ≡ base a)
    → base' p ≡ base p + 1
    → Inv base s
    → Inv base' s'
unfolding memqueue_retain
retained-Inv {base} {base'} p s s' e others more v =
    let (q, there, done) = >>=-eq-ok (deref (s.queues p)) _ e in
    let at = deref-some _ q there in
    let k = v.queue p q at in
    let good : QueueOk (base' p) (record q { ref_count = q.ref_count + 1 }) = record {
      counted = k.counted;
      held = omega (arith, k.held, more);
      revs = k.revs;
      table = k.table;
      idle = k.idle;
    } in
    subst (Inv base') (ok-injective done)
      (rebased-Inv p q (record q { ref_count = q.ref_count + 1 }) v at others good refl refl)

-- What a consumer that joins makes others hold: the announcement's deadline, or nothing if it is known.
abbrev pub announced_refs : RbTrees → Ptr → Text → Queue → Ins → Ptr → ℕ → ℕ
announced_refs rb p id q s a i = elim (h_get q.consumers id) [
  | some _ ↦ 0
  | none ↦ kept_refs rb p (next_msg_id s) (pos 2000) a i
]

module _ (rb : RbTrees) (now : ℕ) (p : Ptr) (q : Queue) (id : Text) (s s' : Ins)
    (at : s.queues p ≡ some q) (room : q.rev < int_max)
    (unused : find_msg (next_msg_id s) q.msg_queue ≡ none)
    (e : memqueue_refresh_consumer rb now p id s ≡ ok s') where
  abbrev joined_queue : Queue
  joined_queue = with_consumer id s.next_ptr q

  abbrev mid : Ins
  mid = joining id p q s

  mid_at : mid.queues p ≡ some joined_queue
  mid_at = update_at s.queues p (some joined_queue)

  mid-Inv :
      {base : Ptr → ℕ}
      → h_get q.consumers id ≡ none
      → base p ≢ 0
      → Inv base s
      → Inv (given_back p base) mid
  mid-Inv {base} new n v =
      let k = v.queue p q at in
      let (longer, idle) = h_insert_new q.consumers k.table id s.next_ptr new in
      let good : QueueOk (base p - 1) joined_queue = record {
        counted = k.counted;
        held = omega (arith, k.held, n, longer);
        revs = k.revs;
        table = h_insert-IsValid q.consumers k.table id s.next_ptr;
        idle = idle ∙ k.idle;
      } in
      same-Inv
        (rebased-Inv {base' = given_back p base} p q joined_queue v at (λ a miss. rw miss refl)
          (rw (==_refl p) good) refl refl)
        refl refl refl (omega arith)

  pub refresh-Inv : {base : Ptr → ℕ} → base p ≢ 0 → Inv base s → Inv base s'
  refresh-Inv {base} n v = elim (refresh_parts rb now p q id s s' at e) [
    | inl (_, _, k) ↦ same-Inv v k.queues k.clis k.store k.next_ptr
    | inr j ↦
        let (_, run, out) =
          memqueue_msg_create-Notified rb now p joined_queue (pos 2000) (id ++ codes ":joined")
            (mid-Inv j.new n v) mid_at room unused in
        let announced : Inv (given_back p base) j.announced =
          same_result (Inv (given_back p base)) run j.post out.inv in
        let back : Inv base j.retained =
          retained-Inv p j.announced j.retained j.retain (λ a miss. rw miss refl)
            (rw (==_refl p) (omega (arith, n))) announced in
        let k = j.quiet in same-Inv back k.queues k.clis k.store k.next_ptr
  ]

  mid-SameBinders : SameBinders s mid
  mid-SameBinders =
      let s₀ : Ins = record mid { queues = s.queues } in
      SameBinders-trans (same-SameBinders {s = s} s₀ refl refl (omega arith))
        (store_queue-SameBinders p q joined_queue s₀ at refl)

  pub refresh-SameBinders : SameBinders s s'
  unfolding memqueue_retain
  refresh-SameBinders = elim (refresh_parts rb now p q id s s' at e) [
    | inl (_, _, k) ↦ same-SameBinders s' k.queues k.clis k.next_ptr
    | inr j ↦
        let (x, there, done) = >>=-eq-ok (deref (j.announced.queues p)) _ j.retain in
        let told : SameBinders mid j.announced =
          post-SameBinders rb now p joined_queue (pos 2000) (id ++ codes ":joined") mid j.announced
            mid_at room j.post in
        let held : SameBinders j.announced j.retained =
          subst (SameBinders j.announced) (ok-injective done) (
            store_queue-SameBinders p x (record x { ref_count = x.ref_count + 1 }) j.announced
              (deref-some _ x there) refl) in
        let k = j.quiet in
        SameBinders-trans mid-SameBinders (
          SameBinders-trans told
            (SameBinders-trans held (same-SameBinders s' k.queues k.clis k.next_ptr)))
  ]

  -- The announcement, if there is one, has a reference of its own until it expires.
  pub refresh-Ledger :
      {held : Ptr → ℕ → ℕ}
      → Ledger held s
      → Ledger (λ a i. announced_refs rb p id q s a i + held a i) s'
  refresh-Ledger {held} l = elim (refresh_parts rb now p q id s s' at e) [
    | inl (_, known, k) ↦
        let nothing : held ≡ (λ a i. 0 + held a i) = fun_ext λ a. fun_ext λ i. omega arith in
        rw (announced_refs, known)
          (subst (λ h. Ledger h s') nothing (same-Ledger s' k.queues k.clis k.next_ptr l))
    | inr j ↦
        let l₀ : Ledger held (record mid { queues = s.queues }) =
          same-Ledger {s = s} _ refl refl (omega arith) l in
        let l₁ : Ledger held mid = store_queue-Ledger p q joined_queue at refl l₀ in
        let l₂ =
          post-Ledger rb now p joined_queue (pos 2000) (id ++ codes ":joined") mid j.announced
            mid_at room unused j.post l₁ in
        let l₃ = retain_queue-Ledger p j.announced j.retained j.retain l₂ in
        let k = j.quiet in rw (announced_refs, j.new) (same-Ledger s' k.queues k.clis k.next_ptr l₃)
  ]
