-- ===== src/Memqueue/Steps/Present.antt =====
-- A client of src/memqueue.c that is there with all of its queues, in the middle of its poll.
use mathlib.Core.Path.{subst}
use memqueue.Base.{
  ℕ, ◌+◌, ◌≡◌, refl, ap, sym, ◌∙◌, List, [], ◌∷◌, ◌++◌, some, ok, deref, >>=-eq-ok, ok-injective,
}
use memqueue.Base.Int.{ℤ}
use memqueue.Memqueue.Types.{
  Ptr, MsgRef, Queue, Binder, CliBinder, Ins, RbTrees, update, store_queue, store_cli,
}
use memqueue.Memqueue.Refs.Counts.{retained}
use memqueue.Memqueue.Sched.{memqueue_resched}
use memqueue.Memqueue.Message.{cli_binder_enqueue_msg}
use memqueue.Memqueue.Poll.{cli_binder_enqueue_msgs, memqueue_bind}
use memqueue.Memqueue.Invariant.{update_at}
use memqueue.Memqueue.Invariant.Retain.{memqueue_msg_retain_lem}
use memqueue.Memqueue.Invariant.Rescheduled.{memqueue_resched_made}
use memqueue.Memqueue.Links.Unbound.{Bound, Bound-store}
use memqueue.Base.{deref-some}
use memqueue.Memqueue.Steps.Kept.{same_result, retain_there}
use memqueue.Memqueue.Steps.Served.{enqueue_msgs-keeps}

-- The client is there, and all of its queues are.
abbrev pub At : Ptr → Ins → Type 0
At c s = (b : CliBinder) × (s.clis c ≡ some b) × Bound s b.memqueues

same-Bound : (s s' : Ins) (bs : List Binder) → s'.queues ≡ s.queues → Bound s bs → Bound s' bs
same-Bound s s' [] e r = tt
same-Bound s s' (b ∷ bs) e ((q, at), r) =
    ((q, ap (λ f. f b.memqueue) e ∙ at), same-Bound s s' bs e r)

-- A queue that is written, and no client.
store_queue-At :
    (c p : Ptr) (q : Queue) (s s' : Ins)
    → s'.queues ≡ update s.queues p (some q)
    → s'.clis ≡ s.clis
    → At c s
    → At c s'
store_queue-At c p q s s' queues clis (b, there, bound) = (
  b,
  ap (λ f. f c) clis ∙ there,
  same-Bound (store_queue p q s) s' b.memqueues queues (Bound-store p q s b.memqueues bound),
)

pub resched-At :
    (rb : RbTrees) (now : ℕ) (c p : Ptr) (s s' : Ins)
    → memqueue_resched rb now p s ≡ ok s'
    → At c s
    → At c s'
resched-At rb now c p s s' e a =
    let (q, at, r) = memqueue_resched_made rb now p s s' e in
    store_queue-At c p (record q { expiry_node = r.node }) s s' r.queues r.clis a

pub bind-At :
    (c p : Ptr) (rev include_consumers : ℤ) (s s' : Ins)
    → memqueue_bind p c rev include_consumers s ≡ ok s'
    → At c s
    → At c s'
unfolding memqueue_bind
bind-At c p rev include_consumers s s' e (b₀, there₀, bound₀) =
    let (b, there, rest) = >>=-eq-ok (deref (s.clis c)) _ e in
    let (q, at, done) = >>=-eq-ok (deref (s.queues p)) _ rest in
    let same : some b₀ ≡ some b = sym there₀ ∙ deref-some _ b there in
    let b₀-b : b₀ ≡ b = cc same in
    let bound = subst (λ (x : CliBinder). Bound s x.memqueues) b₀-b bound₀ in
    let x : Binder = record {
      address = s.next_ptr;
      rev = rev;
      memqueue = p;
      cli_binder = c;
      include_consumers = include_consumers;
    } in
    let q' : Queue = record q { memqueue_binders = x ∷ q.memqueue_binders } in
    let b' : CliBinder = record b { memqueues = x ∷ b.memqueues } in
    let s₁ : Ins = record (store_queue p q' (store_cli c b' s)) { next_ptr = s.next_ptr + 1 } in
    let kept =
      same-Bound (store_queue p q' s) s₁ b.memqueues refl (Bound-store p q' s b.memqueues bound) in
    subst (At c) (ok-injective done)
      (b', update_at s.clis c (some b'), ((q', update_at s.queues p (some q')), kept))

enqueue_msg-At :
    (c : Ptr) (r : MsgRef) (s s' : Ins) → cli_binder_enqueue_msg c r s ≡ ok s' → At c s → At c s'
unfolding cli_binder_enqueue_msg
enqueue_msg-At c r s s' e (b₀, there₀, bound₀) =
    let (b, there, rest) = >>=-eq-ok (deref (s.clis c)) _ e in
    let same : some b₀ ≡ some b = sym there₀ ∙ deref-some _ b there in
    let b₀-b : b₀ ≡ b = cc same in
    let bound = subst (λ (x : CliBinder). Bound s x.memqueues) b₀-b bound₀ in
    let b' : CliBinder = record b { pending_msgs = b.pending_msgs ++ r ∷ [] } in
    let s₁ : Ins = store_cli c b' s in
    let (q, m, at, found) = retain_there r s₁ s' rest in
    let run = memqueue_msg_retain_lem r.memqueue r.msg_id m q s₁ at found in
    same_result (At c) run rest (
      store_queue-At c r.memqueue (retained r.msg_id m q) s₁
        (store_queue r.memqueue (retained r.msg_id m q) s₁) refl refl
        (b', update_at s.clis c (some b'), same-Bound s s₁ b.memqueues refl bound))

pub fetch-At :
    (c p : Ptr) (rev latest : ℤ) (n : ℕ) (s s' : Ins)
    → cli_binder_enqueue_msgs c p rev latest s ≡ ok (n, s')
    → At c s
    → At c s'
fetch-At c p rev latest = enqueue_msgs-keeps (At c) c p rev latest (enqueue_msg-At c)
