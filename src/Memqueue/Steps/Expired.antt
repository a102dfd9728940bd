-- ===== src/Memqueue/Steps/Expired.antt =====
-- A rescheduling and the cleaner's walk over the messages that expired, of src/memqueue_expiry.c, leave
-- a state in order.
use mathlib.Core.Path.{subst}
use memqueue.Base.{
  >>-guard, use_after_free, ℕ, zero, suc, ◌≡◌, ◌≢◌, refl, List, [], ◌∷◌, Option, none, some, Run,
  ok, deref, >>=-eq-ok, ok-injective, arith, Option-cases, Bool-cases, inl, inr, if◌then◌else◌, leb,
  ◌>>=◌,
}
use memqueue.Expiry.{ExpiryNode, Tree, to_list, find_node}
use memqueue.Memqueue.Types.{Ptr, MsgRef, Queue, Ins, RbTrees}
use memqueue.Memqueue.Sched.{memqueue_resched}
use memqueue.Memqueue.Cleaner.{
  clear_expiry_node, msg_stays, set_objs, expire_msgs, expire_msgs_loop, rb_left,
}
use memqueue.Memqueue.Refs.{memqueue_release, memqueue_msg_release}
use memqueue.Memqueue.Refs.Counts.{QueueOk}
use memqueue.Memqueue.Invariant.{Inv, same-Inv, store_queue-Inv}
use memqueue.Memqueue.Invariant.Delete.{given_back, drop_base}
use memqueue.Memqueue.Invariant.Rescheduled.{Resched-Inv, memqueue_resched_made}
use memqueue.Base.{deref-some}
use memqueue.Memqueue.Steps.Kept.{same_result, release-Inv}

-- The trees of deadlines have no part in the order of a state.
pub msg_expiry-Inv :
    {base : Ptr → ℕ} (t : Tree MsgRef) (s : Ins)
    → Inv base s
    → Inv base (record s { msg_expiry = t })
msg_expiry-Inv t s v = same-Inv v refl refl refl (omega arith)

-- What releases of messages and changes of their tree keep, the walk keeps.
module _ (P : Ins → Type 0)
    (tree : (t : Tree MsgRef) (s : Ins) → P s → P (record s { msg_expiry = t }))
    (release : (r : MsgRef) (s s' : Ins) → memqueue_msg_release r s ≡ ok s' → P s → P s') where
  expire_msgs-keeps :
      (i : Ptr) (rs : List MsgRef) (s s' : Ins) → expire_msgs i rs s ≡ ok s' → P s → P s'
  unfolding expire_msgs
  expire_msgs-keeps i [] s s' e v = subst P (ok-injective e) v
  expire_msgs-keeps i (r ∷ rs) s s' e v =
      let (s₁, run, rest) =
        >>=-eq-ok (memqueue_msg_release r (record s { msg_expiry = set_objs i rs s.msg_expiry })) _
          e in
      let rest₁ = >>-guard (msg_stays r s) use_after_free (expire_msgs i rs s₁) rest in
      expire_msgs-keeps i rs s₁ s' rest₁
        (release r _ s₁ run (tree (set_objs i rs s.msg_expiry) s v))

  module _ (rb : RbTrees) where
    -- One round of the walk.
    abbrev node_expired : ExpiryNode MsgRef → Ptr → ℕ → Ins → Run Ins
    node_expired n i now s =
        if leb n.msecs now
        then (do
          s₁ ← expire_msgs i n.objs s
          ok (record s₁ { msg_expiry = rb.of_msgs.rb_erase i s₁.msg_expiry }))
        else ok s

    node_expired-keeps :
        (n : ExpiryNode MsgRef) (i now : ℕ) (s s' : Ins)
        → node_expired n i now s ≡ ok s'
        → P s
        → P s'
    node_expired-keeps n i now s s' e v = elim (Bool-cases (leb n.msecs now)) [
      | inr later ↦ subst P (ok-injective (rw later at e)) v
      | inl due ↦
          let (s₁, run, last) = >>=-eq-ok (expire_msgs i n.objs s) _ (rw due at e) in
          subst P (ok-injective last)
            (tree (rb.of_msgs.rb_erase i s₁.msg_expiry) s₁ (expire_msgs-keeps i n.objs s s₁ run v))
    ]

    pub expire_msgs_loop-keeps :
        (f now : ℕ) (at : Option Ptr) (s s' : Ins)
        → expire_msgs_loop rb f now at s ≡ ok s'
        → P s
        → P s'
    unfolding expire_msgs_loop
    expire_msgs_loop-keeps f now none s s' e v = subst P (ok-injective e) v
    expire_msgs_loop-keeps zero now (some i) s s' e v = absurd (cc)
    expire_msgs_loop-keeps (suc f) now (some i) s s' e v =
        let (n, _, rest) = >>=-eq-ok (deref (find_node i (to_list s.msg_expiry))) _ e in
        let (s₁, run, last) = >>=-eq-ok (node_expired n i now s) _ rest in
        expire_msgs_loop-keeps f now (rb_left i s.msg_expiry) s₁ s' last
          (node_expired-keeps n i now s s₁ run v)

clear-Inv : {base : Ptr → ℕ} (p : Ptr) (s : Ins) → Inv base s → Inv base (clear_expiry_node p s)
unfolding clear_expiry_node
clear-Inv {base} p s v = elim (Option-cases (s.queues p)) [
  | inl gone ↦ rw (clear_expiry_node, gone) v
  | inr (q, at) ↦
      let k = v.queue p q at in
      let q' : Queue = record q { expiry_node = none } in
      let k' : QueueOk (base p) q' = record {
        counted = k.counted;
        held = k.held;
        revs = k.revs;
        table = k.table;
        idle = k.idle;
      } in
      rw (clear_expiry_node, at) (store_queue-Inv v p q q' at k' (v.live p q at) refl)
]

-- One round of `expire_queues`, its write after the release left out where the queue is gone.
pub expire_queue-Inv :
    {base : Ptr → ℕ} (t : Tree Ptr) (p : Ptr) (s s' : Ins)
    → memqueue_release p (record s { memqueue_expiry = t }) ≡ ok s'
    → base p ≢ 0
    → Inv base s
    → Inv (given_back p base) (clear_expiry_node p s')
unfolding memqueue_release
expire_queue-Inv {base} t p s s' e n v =
    let (q, there, drop) = >>=-eq-ok (deref (s.queues p)) _ e in
    let s₀ : Ins = record s { memqueue_expiry = t } in
    let v₀ : Inv base s₀ = same-Inv v refl refl refl (omega arith) in
    let (_, run, inv, _) = drop_base p q v₀ (deref-some (s.queues p) q there) n in
    clear-Inv p s' (same_result (Inv (given_back p base)) run drop inv)

module _ (rb : RbTrees) where
  pub expire_msgs_loop-Inv :
      {base : Ptr → ℕ} (f now : ℕ) (at : Option Ptr) (s s' : Ins)
      → expire_msgs_loop rb f now at s ≡ ok s'
      → Inv base s
      → Inv base s'
  expire_msgs_loop-Inv {base} = expire_msgs_loop-keeps (Inv base) msg_expiry-Inv release-Inv rb

  pub resched-Inv :
      {base : Ptr → ℕ} (now : ℕ) (p : Ptr) (s s' : Ins)
      → memqueue_resched rb now p s ≡ ok s'
      → Inv base s
      → Inv base s'
  resched-Inv now p s s' e v =
      let (q, at, r) = memqueue_resched_made rb now p s s' e in Resched-Inv p q v at r
