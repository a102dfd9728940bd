-- ===== src/Memqueue/Links/Same.antt =====
-- The operations of src/memqueue.c and src/memqueue_expiry.c that bind and unbind nobody.
use memqueue.Base.{
  ℕ, ◌-◌, ◌≡◌, refl, ap, sym, ◌∙◌, List, [], ◌∷◌, ◌++◌, Option, none, some, ◌==◌, Bool-cases,
  Option-cases, inl, inr, arith, ok, >>=-eq-ok, ok-injective, deref, ◌>>=◌, true,
}
use mathlib.Core.Path.{subst}
use memqueue.Base.Int.{ℤ, pos, leb_ℤ}
use memqueue.Memqueue.Types.{
  Ptr, MsgRef, Queue, Binder, CliBinder, Ins, RbTrees, store_queue, store_cli,
}
use memqueue.Memqueue.Refs.{memqueue_release, memqueue_msg_retain, memqueue_msg_release}
use memqueue.Memqueue.Refs.Counts.{retained, lowered, lowered_same}
use memqueue.Memqueue.Sched.{memqueue_resched}
use memqueue.Memqueue.Message.{cli_binder_enqueue_msg, cli_wakeup, notify_binders}
use memqueue.Memqueue.Poll.{cli_binder_enqueue_msgs, release_loop, cli_binder_release_pending_msgs}
use memqueue.Memqueue.Cleaner.{clear_expiry_node}
use memqueue.Memqueue.Invariant.Retain.{memqueue_msg_retain_lem}
use memqueue.Memqueue.Invariant.Rescheduled.{memqueue_resched_made}
use memqueue.Base.{deref-some}
use memqueue.Memqueue.Steps.Kept.{same_result, retain_there, release_there}
use memqueue.Memqueue.Steps.Served.{enqueue_msgs-keeps}
use memqueue.Memqueue.Ledger.Released.{left_over, Dropped, drop_queue_ref-Dropped, release_drop}
use memqueue.Memqueue.Links.Kept.{
  SameBinders, SameBinders-trans, same-SameBinders, write_queue-SameBinders, store_cli-SameBinders,
}

abbrev binders_or_none : Option Queue → List Binder
binders_or_none none = []
binders_or_none (some y) = y.memqueue_binders

pub store_queue-SameBinders :
    (p : Ptr) (q q' : Queue) (s : Ins)
    → s.queues p ≡ some q
    → q'.memqueue_binders ≡ q.memqueue_binders
    → SameBinders s (store_queue p q' s)
store_queue-SameBinders p q q' s at same =
    write_queue-SameBinders p (some q') s (λ y e. inr (q, at, ap binders_or_none (sym e) ∙ same))

left_over-binders : (q y : Queue) → left_over q ≡ some y → y.memqueue_binders ≡ q.memqueue_binders
left_over-binders q y e = elim (Bool-cases (q.ref_count - 1 == 0)) [
  | inl last ↦ absurd (cc (rw last at e))
  | inr more ↦
      let e' : some (record q { ref_count = q.ref_count - 1 }) ≡ some y = rw more at e in
      ap binders_or_none (sym e')
]

Dropped-SameBinders :
    (p : Ptr) (q q' : Queue) (s s' : Ins)
    → s.queues p ≡ some q
    → q'.memqueue_binders ≡ q.memqueue_binders
    → Dropped p q' s s'
    → SameBinders s s'
Dropped-SameBinders p q q' s s' at same d =
    SameBinders-trans
      (write_queue-SameBinders p (left_over q') s
        (λ y e. inr (q, at, left_over-binders q' y e ∙ same)))
      (same-SameBinders s' d.queues d.clis (omega (arith, d.next_ptr)))

pub msg_retain-SameBinders :
    (r : MsgRef) (s s' : Ins) → memqueue_msg_retain r s ≡ ok s' → SameBinders s s'
msg_retain-SameBinders r s s' e =
    let (q, m, at, found) = retain_there r s s' e in
    same_result (SameBinders s) (memqueue_msg_retain_lem r.memqueue r.msg_id m q s at found) e
      (store_queue-SameBinders r.memqueue q (retained r.msg_id m q) s at refl)

enqueue_msg-SameBinders :
    (c : Ptr) (r : MsgRef) (s s' : Ins) → cli_binder_enqueue_msg c r s ≡ ok s' → SameBinders s s'
unfolding cli_binder_enqueue_msg
enqueue_msg-SameBinders c r s s' e =
    let (b, there, rest) = >>=-eq-ok (deref (s.clis c)) _ e in
    let b' : CliBinder = record b { pending_msgs = b.pending_msgs ++ r ∷ [] } in
    SameBinders-trans (store_cli-SameBinders c b b' s (deref-some _ b there) refl)
      (msg_retain-SameBinders r (store_cli c b' s) s' rest)

wakeup-SameBinders : (c : Ptr) (s s' : Ins) → cli_wakeup c s ≡ ok s' → SameBinders s s'
unfolding cli_wakeup
wakeup-SameBinders c s s' e =
    let (b, there, done) = >>=-eq-ok (deref (s.clis c)) _ e in
    subst (SameBinders s) (ok-injective done)
      (store_cli-SameBinders c b (record b { signalled = true }) s (deref-some _ b there) refl)

pub unchanged : (s : Ins) → SameBinders s s
unchanged s = same-SameBinders s refl refl (omega arith)

pub notify_binders-SameBinders :
    (bs : List Binder) (rev : ℕ) (r : MsgRef) (s s' : Ins)
    → notify_binders bs rev r s ≡ ok s'
    → SameBinders s s'
unfolding notify_binders
notify_binders-SameBinders [] rev r s s' e = subst (SameBinders s) (ok-injective e) (unchanged s)
notify_binders-SameBinders (b ∷ bs) rev r s s' e = elim (Bool-cases (leb_ℤ b.rev (pos rev))) [
  | inr skip ↦ notify_binders-SameBinders bs rev r s s' (rw skip at e)
  | inl wanted ↦
      let c = b.cli_binder in
      let (s₂, both, rest) =
        >>=-eq-ok (cli_binder_enqueue_msg c r s >>= cli_wakeup c) (notify_binders bs rev r)
          (rw wanted at e) in
      let (s₁, given, woken) = >>=-eq-ok (cli_binder_enqueue_msg c r s) (cli_wakeup c) both in
      SameBinders-trans (enqueue_msg-SameBinders c r s s₁ given) (
        SameBinders-trans (wakeup-SameBinders c s₁ s₂ woken)
          (notify_binders-SameBinders bs rev r s₂ s' rest))
]

pub enqueue_msgs-SameBinders :
    (c p : Ptr) (rev latest : ℤ) (n : ℕ) (s s' : Ins)
    → cli_binder_enqueue_msgs c p rev latest s ≡ ok (n, s')
    → SameBinders s s'
enqueue_msgs-SameBinders c p rev latest n s s' e =
    enqueue_msgs-keeps (SameBinders s) c p rev latest
      (λ r x y run k. SameBinders-trans k (enqueue_msg-SameBinders c r x y run)) n s s' e
      (unchanged s)

pub msg_release-SameBinders :
    (r : MsgRef) (s s' : Ins) → memqueue_msg_release r s ≡ ok s' → SameBinders s s'
msg_release-SameBinders r s s' e =
    let (q, m, at, found, n) = release_there r s s' e in
    let p = r.memqueue in
    let i = r.msg_id in
    let (_, _, binders) = lowered_same i m q in
    Dropped-SameBinders p q (lowered i m q) s s' at binders
      (drop_queue_ref-Dropped p (lowered i m q) s s' (release_drop p i m q s s' at found n e))

release_loop-SameBinders :
    (rs : List MsgRef) (s s' : Ins) → release_loop rs s ≡ ok s' → SameBinders s s'
unfolding release_loop
release_loop-SameBinders [] s s' e = subst (SameBinders s) (ok-injective e) (unchanged s)
release_loop-SameBinders (r ∷ rs) s s' e =
    let (s₁, run, rest) = >>=-eq-ok (memqueue_msg_release r s) _ e in
    SameBinders-trans (msg_release-SameBinders r s s₁ run) (release_loop-SameBinders rs s₁ s' rest)

pub flush-SameBinders :
    (c : Ptr) (s s' : Ins) → cli_binder_release_pending_msgs c s ≡ ok s' → SameBinders s s'
unfolding cli_binder_release_pending_msgs
flush-SameBinders c s s' e =
    let (b, there, rest) = >>=-eq-ok (deref (s.clis c)) _ e in
    let b' : CliBinder = record b { pending_msgs = [] } in
    SameBinders-trans (store_cli-SameBinders c b b' s (deref-some _ b there) refl)
      (release_loop-SameBinders b.pending_msgs (store_cli c b' s) s' rest)

pub release_queue-SameBinders :
    (p : Ptr) (s s' : Ins) → memqueue_release p s ≡ ok s' → SameBinders s s'
unfolding memqueue_release
release_queue-SameBinders p s s' e =
    let (q, there, drop) = >>=-eq-ok (deref (s.queues p)) _ e in
    Dropped-SameBinders p q q s s' (deref-some _ q there) refl
      (drop_queue_ref-Dropped p q s s' drop)

pub resched-SameBinders :
    (rb : RbTrees) (now : ℕ) (p : Ptr) (s s' : Ins)
    → memqueue_resched rb now p s ≡ ok s'
    → SameBinders s s'
resched-SameBinders rb now p s s' e =
    let (q, at, r) = memqueue_resched_made rb now p s s' e in
    let q' : Queue = record q { expiry_node = r.node } in
    SameBinders-trans (store_queue-SameBinders p q q' s at refl)
      (same-SameBinders _ r.queues r.clis r.next_ptr)

pub clear-SameBinders : (p : Ptr) (s : Ins) → SameBinders s (clear_expiry_node p s)
unfolding clear_expiry_node
clear-SameBinders p s = elim (Option-cases (s.queues p)) [
  | inl gone ↦ rw (clear_expiry_node, gone) (unchanged s)
  | inr (q, at) ↦
      rw (clear_expiry_node, at)
        (store_queue-SameBinders p q (record q { expiry_node = none }) s at refl)
]
