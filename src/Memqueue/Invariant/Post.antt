-- ===== src/Memqueue/Invariant/Post.antt =====
-- A POST as a whole: `on_msg_post` of src/memqueue.c, once its arguments are read.
use memqueue.Base.{
  ℕ, ◌+◌, ◌≡◌, ◌≢◌, refl, ◌∙◌, Bool, true, false, not, List, [], ◌∷◌, ◌++◌, some, Text, ◌==◌,
  Bool-cases, if◌then◌else◌, inl, inr, arith, ok, ◌&&◌, Option,
}
use memqueue.Base.Int.{ℤ}
use mathlib.Core.List.{map-append}
use memqueue.Hash.{h_get}
use memqueue.Memqueue.Types.{Ptr, Queue, Ins, RbTrees, update, store_queue}
use memqueue.Memqueue.Poll.{is_set}
use memqueue.Memqueue.Respond.{memqueue_respond, msg_added, full}
use memqueue.Memqueue.Handlers.{is_memqueue_full, post_msg}
use memqueue.Memqueue.Invariant.{Inv, update_at}
use memqueue.Memqueue.Invariant.Notify.{contents}
use memqueue.Memqueue.Invariant.Deadlines.{QueuesThere, QueuesThere-kept}
use memqueue.Memqueue.Invariant.Rescheduled.{OnTree, Resched-Inv, memqueue_resched_total}
use memqueue.Memqueue.Invariant.Create.{memqueue_msg_create-Notified}
use memqueue.Memqueue.Invariant.Full.{
  is_full, tried, try_head, try_head_lem, list_cases, full_some, is_memqueue_full_lem,
}
use memqueue.Memqueue.Invariant.Room.{CanPost, tried_same, tried-CanPost}

-- The queue that a message is appended to, when the queue is not full or drops from its head.
abbrev pub made_room : Queue → Queue
made_room q = if is_full q then try_head q else q

abbrev pub refused : Queue → Bool
refused q = is_full q && not (is_set q.drop_from_head)

-- What a POST leaves of `s`: a state in order in which the queue has that revision and those contents,
-- and the names and the other queues are as before.
pub record Posted (base : Ptr → ℕ) (s : Ins) (p n : ℕ) (l : List (ℕ × Text)) (q' : Queue) (s' : Ins)
    : Type 0 where
  pub inv : Inv base s'
  pub at : s'.queues p ≡ some q'
  pub rev : q'.rev ≡ n
  pub texts : contents q'.msg_queue ≡ l
  pub store : s'.queue_store ≡ s.queue_store
  pub others : (a : Ptr) → (a == p) ≡ false → s'.queues a ≡ s.queues a

update_other :
    (f : Ptr → Option Queue) (p : Ptr) (c : Option Queue) (a : Ptr)
    → (a == p) ≡ false
    → update f p c a ≡ f a
update_other f p c a n = rw n refl

-- What was written to the queue's place before does not matter.
Posted-store :
    {base : Ptr → ℕ} {s : Ins} (p : Ptr) (x : Queue) {n : ℕ} {l : List (ℕ × Text)} {q' : Queue}
    {s' : Ins}
    → Posted base (store_queue p x s) p n l q' s'
    → Posted base s p n l q' s'
Posted-store {s = s} p x o = record {
  inv = o.inv;
  at = o.at;
  rev = o.rev;
  texts = o.texts;
  store = o.store;
  others = λ a n. o.others a n ∙ update_other s.queues p (some x) a n;
}

module _ (rb : RbTrees) (now : ℕ) (id : Text) (msecs : ℤ) (body : Text) (base : Ptr → ℕ) (s : Ins)
    (p : Ptr) (named : h_get s.queue_store id ≡ some p) where
  post_refused :
      (q : Queue)
      → CanPost base p q s
      → is_memqueue_full p s ≡ ok (true, s)
      → (q' : Queue) × (s' : Ins) × (post_msg rb now id msecs body s
          ≡ ok (memqueue_respond full, s'))
        × Posted base s p q.rev (contents q.msg_queue) q' s'
  unfolding post_msg
  post_refused q c f =
      let (s', run, r) = memqueue_resched_total rb now p q s c.at c.on_tree c.there in
      (
        record q { expiry_node = r.node },
        s',
        rw (post_msg, named, f, run) refl,
        record {
          inv = Resched-Inv p q c.inv c.at r;
          at = (λ i. r.queues i p) ∙ update_at s.queues p _;
          rev = refl;
          texts = refl;
          store = r.store;
          others = λ a n. (λ i. r.queues i a) ∙ update_other s.queues p _ a n;
        },
      )

  post_accepted :
      (q₁ : Queue) (s₁ : Ins)
      → CanPost base p q₁ s₁
      → is_memqueue_full p s ≡ ok (false, s₁)
      → (q' : Queue) × (s' : Ins) × (post_msg rb now id msecs body s
          ≡ ok (memqueue_respond (msg_added q'), s'))
        × Posted base s₁ p (q₁.rev + 1) (contents q₁.msg_queue ++ (q₁.rev + 1, body) ∷ []) q' s'
  unfolding post_msg memqueue_respond
  post_accepted q₁ s₁ c f =
      let (s₂, create, out) =
        memqueue_msg_create-Notified rb now p q₁ msecs body c.inv c.at c.room c.new in
      let x = out.queue in
      let on : OnTree x.expiry_node s₂.memqueue_expiry =
        rw (out.kept.expiry_node, out.timed) c.on_tree in
      let there : QueuesThere s₂.queues s₂.memqueue_expiry =
        rw out.timed
          (QueuesThere-kept s₁.queues s₂.queues s₁.memqueue_expiry p x out.others out.at c.there) in
      let (s', run, r) = memqueue_resched_total rb now p x s₂ out.at on there in
      (
        record x { expiry_node = r.node },
        s',
        rw (post_msg, named, f, create, out.at, run) refl,
        record {
          inv = Resched-Inv p x out.inv out.at r;
          at = (λ i. r.queues i p) ∙ update_at s₂.queues p _;
          rev = out.kept.rev;
          texts = out.kept.contents ∙ map-append _ q₁.msg_queue _;
          store = r.store ∙ out.store;
          others = λ a n. (λ i. r.queues i a) ∙ update_other s₂.queues p _ a n ∙ out.others a n;
        },
      )

  drop_accepted :
      (q : Queue)
      → CanPost base p q s
      → is_full q ≡ true
      → is_memqueue_full p s ≡ ok (false, store_queue p (try_head q) s)
      → (q' : Queue) × (s' : Ins) × (post_msg rb now id msecs body s
          ≡ ok (memqueue_respond (msg_added q'), s'))
        × Posted base s p
            (q.rev + 1)
            (contents (try_head q).msg_queue ++ (q.rev + 1, body) ∷ [])
            q'
            s'
  drop_accepted q c f d = elim (list_cases q.msg_queue) [
    | inl none_there ↦ absurd (full_some q (c.inv.queue p q c.at).counted f none_there)
    | inr (m, ms, e) ↦
        let t = try_head_lem q m ms e in
        let x = tried m ms q in
        let (q', s', run, o) =
          rw (tried_same m ms q).0 at
            (post_accepted x (store_queue p x s) (tried-CanPost p m ms q e c) (rw t at d)) in
        rw t (q', s', run, Posted-store p x o)
  ]

  -- In a state in order, a POST to a queue of that name, whose revision is below the largest int,
  -- which has its creation's reference, whose deadline is in the tree, and that does not hold the
  -- message's number yet, returns, if every queue whose deadline is in the tree is there. A full queue that does not drop from its head answers that it is
  -- full and keeps its revision and its contents; else the answer tells the new message, which is
  -- the next revision and stands last, after what the queue has once its head was tried if it was
  -- full. The state is in order again.
  pub post_msg_lem :
      (q : Queue)
      → CanPost base p q s
      → base p ≢ 0
      → (q' : Queue) × (s' : Ins) × (post_msg rb now id msecs body s
          ≡ ok (memqueue_respond (if refused q then full else msg_added q'), s'))
        × Posted base s p
            (if refused q then q.rev else q.rev + 1)
            (if refused q
              then contents q.msg_queue
              else contents (made_room q).msg_queue ++ (q.rev + 1, body) ∷ [])
            q'
            s'
  post_msg_lem q c n =
      let k = c.inv.queue p q c.at in
      let d = is_memqueue_full_lem p q s c.at k.counted (λ z. omega (arith, z, k.held, n)) in
      elim (Bool-cases (is_full q)) [
        | inr free ↦ rw free (post_accepted q s c (d ∙ rw free refl))
        | inl f ↦ elim (Bool-cases (is_set q.drop_from_head)) [
          | inr keep ↦ rw (f, keep) (post_refused q c (d ∙ rw (f, keep) refl))
          | inl drop ↦ rw (f, drop) (drop_accepted q c f (d ∙ rw (f, drop) refl))
        ]
      ]
