-- ===== src/Memqueue/Steps/Kept.antt =====
-- The operations of src/memqueue.c that returned leave a state in order.
use mathlib.Core.Path.{subst}
use memqueue.Base.{
  >>-guard, use_after_free, not, Option-cases, deref-some, ℕ, zero, suc, assertion, ◌≡◌, ◌≢◌, refl,
  sym, ◌∙◌, List, [], ◌∷◌, Option, none, some, ◌==◌, if◌then◌else◌, Run, ok, fault, deref,
  >>=-eq-ok, ok-injective, arith, Bool-cases, Option-cases, inl, inr,
}
use memqueue.Base.Int.{ℤ}
use memqueue.Memqueue.Types.{
  Ptr, Msg, MsgRef, Queue, Binder, CliBinder, Ins, update, store_queue, store_cli,
}
use memqueue.Memqueue.Refs.{find_msg, memqueue_msg_retain, memqueue_msg_release}
use memqueue.Memqueue.Poll.{
  cli_binder_create, cli_binder_enqueue_msgs, memqueue_bind, remove_binder, without_orphan, is_head,
  unbind_loop, memqueue_unbind_all, release_loop, cli_binder_release_pending_msgs,
}
use memqueue.Memqueue.Invariant.{Live, Inv, store_queue-Inv, same-Inv}
use memqueue.Memqueue.Refs.Counts.{QueueOk}
use memqueue.Memqueue.Invariant.Retain.{memqueue_msg_retain-Inv, store_cli-Inv}
use memqueue.Memqueue.Invariant.Release.{memqueue_msg_release-Keeps}
use memqueue.Memqueue.Invariant.Bind.{bind-Keeps}
use memqueue.Memqueue.Invariant.Enqueue.{cli_binder_enqueue_msgs_lem}

-- An operation has one result.
pub same_result {ℓ ℓ'} :
    {A : Type ℓ} (P : A → Type ℓ') {r : Run A} {a b : A} → r ≡ ok a → r ≡ ok b → P a → P b
same_result P e e' x = subst P (ok-injective (sym e ∙ e')) x

Live-update :
    (clis : Ptr → Option CliBinder) (c : Ptr) (d : CliBinder) (bs : List Binder)
    → Live clis bs
    → Live (update clis c (some d)) bs
Live-update clis c d [] l = tt
Live-update clis c d (b ∷ bs) ((x, there), l) = (
  elim (Bool-cases (b.cli_binder == c)) [ inl hit ↦ (d, rw hit) | inr miss ↦ (x, rw miss there) ],
  Live-update clis c d bs l,
)

pub connect-Inv :
    {base : Ptr → ℕ} {s : Ins} (timeout : ℕ) → Inv base s → Inv base (cli_binder_create timeout s).1
unfolding cli_binder_create
connect-Inv {base} {s} timeout v = record {
  queue = v.queue;
  live = λ p q e. Live-update s.clis s.next_ptr _ q.memqueue_binders (v.live p q e);
  fresh = λ p l. ground (arith, v.fresh p, l);
  table = v.table;
  stored = v.stored;
}

Live-remove :
    (clis : Ptr → Option CliBinder) (a : Ptr) (bs : List Binder)
    → Live clis bs
    → Live clis (remove_binder a bs)
unfolding remove_binder
Live-remove clis a [] l = l
Live-remove clis a (b ∷ bs) l = elim (Bool-cases (b.address == a)) [
  | inl hit ↦ rw hit l.1
  | inr miss ↦ rw miss (l.0, Live-remove clis a bs l.1)
]

unbind_loop-Inv :
    {base : Ptr → ℕ} (bs : List Binder) (s s' : Ins)
    → unbind_loop bs s ≡ ok s'
    → Inv base s
    → Inv base s'
unfolding unbind_loop
unbind_loop-Inv [] s s' e v = subst (Inv _) (ok-injective e) v
unbind_loop-Inv {base} (b ∷ bs) s s' e v = elim (Option-cases (s.queues b.memqueue)) [
  | inl gone ↦
      let rest =
        >>-guard (not (is_head b.address (s.orphans b.memqueue))) use_after_free _
          (rw (unbind_loop, gone) at e) in
      unbind_loop-Inv bs (without_orphan b s) s' rest (same-Inv v refl refl refl (omega arith))
  | inr (q, at) ↦
      let q' : Queue = record q { memqueue_binders = remove_binder b.address q.memqueue_binders } in
      let k = v.queue b.memqueue q at in
      let good : QueueOk (base b.memqueue) q' = record {
        counted = k.counted;
        held = k.held;
        revs = k.revs;
        table = k.table;
        idle = k.idle;
      } in
      unbind_loop-Inv bs (store_queue b.memqueue q' s) s' (rw (unbind_loop, at) at e) (
        store_queue-Inv v b.memqueue q q' at good
          (Live-remove s.clis b.address q.memqueue_binders (v.live b.memqueue q at)) refl)
]

pub unbind-Inv :
    {base : Ptr → ℕ} (c : Ptr) (s s' : Ins)
    → memqueue_unbind_all c s ≡ ok s'
    → Inv base s
    → Inv base s'
unfolding memqueue_unbind_all
unbind-Inv c s s' e v =
    let (d, there, rest) = >>=-eq-ok (deref (s.clis c)) _ e in
    let d' : CliBinder = record d { memqueues = [] } in
    unbind_loop-Inv d.memqueues (store_cli c d' s) s' rest
      (store_cli-Inv v c d d' (deref-some (s.clis c) d there))

not_asserted :
    {A : Type 0} (n : ℕ) (r : Run A) {a : A}
    → (if n == 0 then fault assertion else r) ≡ ok a
    → n ≢ 0
not_asserted zero r e z = cc
not_asserted (suc n) r e z = omega (arith, z)

pub retain_there :
    (r : MsgRef) (s s' : Ins)
    → memqueue_msg_retain r s ≡ ok s'
    → (q : Queue) × (m : Msg) × (s.queues r.memqueue ≡ some q)
      × (find_msg r.msg_id q.msg_queue ≡ some m)
unfolding memqueue_msg_retain
retain_there r s s' e =
    let (q, there, rest) = >>=-eq-ok (deref (s.queues r.memqueue)) _ e in
    let (m, found, _) = >>=-eq-ok (deref (find_msg r.msg_id q.msg_queue)) _ rest in
    (q, m, deref-some _ q there, deref-some _ m found)

pub release_there :
    (r : MsgRef) (s s' : Ins)
    → memqueue_msg_release r s ≡ ok s'
    → (q : Queue) × (m : Msg) × (s.queues r.memqueue ≡ some q)
      × (find_msg r.msg_id q.msg_queue ≡ some m)
      × (m.ref_count ≢ 0)
unfolding memqueue_msg_release
release_there r s s' e =
    let (q, there, rest) = >>=-eq-ok (deref (s.queues r.memqueue)) _ e in
    let (m, found, last) = >>=-eq-ok (deref (find_msg r.msg_id q.msg_queue)) _ rest in
    (q, m, deref-some _ q there, deref-some _ m found, λ z. not_asserted m.ref_count _ last z)

pub bind_there :
    (p c : Ptr) (rev include_consumers : ℤ) (s s' : Ins)
    → memqueue_bind p c rev include_consumers s ≡ ok s'
    → (q : Queue) × (d : CliBinder) × (s.queues p ≡ some q) × (s.clis c ≡ some d)
unfolding memqueue_bind
bind_there p c rev include_consumers s s' e =
    let (d, there, rest) = >>=-eq-ok (deref (s.clis c)) _ e in
    let (q, at, _) = >>=-eq-ok (deref (s.queues p)) _ rest in
    (q, d, deref-some _ q at, deref-some _ d there)

fetch_there :
    (c p : Ptr) (rev latest : ℤ) (n : ℕ) (s s' : Ins)
    → cli_binder_enqueue_msgs c p rev latest s ≡ ok (n, s')
    → (q : Queue) × (s.queues p ≡ some q)
unfolding cli_binder_enqueue_msgs
fetch_there c p rev latest n s s' e =
    let (q, at, _) = >>=-eq-ok (deref (s.queues p)) _ e in (q, deref-some _ q at)

pub retain-Inv :
    {base : Ptr → ℕ} (r : MsgRef) (s s' : Ins)
    → memqueue_msg_retain r s ≡ ok s'
    → Inv base s
    → Inv base s'
retain-Inv r s s' e v =
    let (q, m, at, found) = retain_there r s s' e in
    let (_, run, inv) = memqueue_msg_retain-Inv r.memqueue r.msg_id m q v at found in
    same_result (Inv _) run e inv

pub release-Inv :
    {base : Ptr → ℕ} (r : MsgRef) (s s' : Ins)
    → memqueue_msg_release r s ≡ ok s'
    → Inv base s
    → Inv base s'
release-Inv r s s' e v =
    let (q, m, at, found, n) = release_there r s s' e in
    let (_, run, inv) = memqueue_msg_release-Keeps r.memqueue r.msg_id m q v at found n in
    same_result (Inv _) run e inv

pub bind-Inv :
    {base : Ptr → ℕ} (p c : Ptr) (rev include_consumers : ℤ) (s s' : Ins)
    → memqueue_bind p c rev include_consumers s ≡ ok s'
    → Inv base s
    → Inv base s'
bind-Inv p c rev include_consumers s s' e v =
    let (q, d, at, there) = bind_there p c rev include_consumers s s' e in
    let (_, run, inv) = bind-Keeps p c rev include_consumers q d v at there in
    same_result (Inv _) run e inv

pub fetch-Inv :
    {base : Ptr → ℕ} (c p : Ptr) (rev latest : ℤ) (n : ℕ) (s s' : Ins)
    → cli_binder_enqueue_msgs c p rev latest s ≡ ok (n, s')
    → s.clis c ≢ none
    → Inv base s
    → Inv base s'
fetch-Inv {base} c p rev latest n s s' e client v =
    let (q, at) = fetch_there c p rev latest n s s' e in
    elim (Option-cases (s.clis c)) [
      | inl gone ↦ absurd (client gone)
      | inr (d, there) ↦
          let (_, run, inv, _) = cli_binder_enqueue_msgs_lem c p rev latest d q s v at there in
          same_result (λ r. Inv base r.1) run e inv
    ]

release_loop-Inv :
    {base : Ptr → ℕ} (rs : List MsgRef) (s s' : Ins)
    → release_loop rs s ≡ ok s'
    → Inv base s
    → Inv base s'
unfolding release_loop
release_loop-Inv [] s s' e v = subst (Inv _) (ok-injective e) v
release_loop-Inv (r ∷ rs) s s' e v =
    let (s₁, run, rest) = >>=-eq-ok (memqueue_msg_release r s) _ e in
    release_loop-Inv rs s₁ s' rest (release-Inv r s s₁ run v)

pub flush-Inv :
    {base : Ptr → ℕ} (c : Ptr) (s s' : Ins)
    → cli_binder_release_pending_msgs c s ≡ ok s'
    → Inv base s
    → Inv base s'
unfolding cli_binder_release_pending_msgs
flush-Inv c s s' e v =
    let (d, there, rest) = >>=-eq-ok (deref (s.clis c)) _ e in
    let d' : CliBinder = record d { pending_msgs = [] } in
    release_loop-Inv d.pending_msgs (store_cli c d' s) s' rest
      (store_cli-Inv v c d d' (deref-some (s.clis c) d there))
