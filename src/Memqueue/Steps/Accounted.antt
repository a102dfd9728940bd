-- ===== src/Memqueue/Steps/Accounted.antt =====
-- The steps of src/memqueue.c with the references that they take and give back.
use mathlib.Core.Path.{subst}
use memqueue.Base.{>>=-eq-ok, deref, ℕ, ◌+◌, ◌≡◌, refl, sym, some, ok, arith}
use memqueue.Memqueue.Types.{Ptr, MsgRef, CliBinder, Ins, RbTrees}
use memqueue.Memqueue.Message.{next_msg_id}
use memqueue.Memqueue.Poll.{poll_end, cli_binder_release_pending_msgs}
use memqueue.Memqueue.Handlers.{memqueue_init}
use memqueue.Memqueue.Cleaner.{set_objs}
use memqueue.Memqueue.Invariant.{Inv, same-Inv}
use memqueue.Memqueue.Invariant.Open.{memqueue_init-Inv}
use memqueue.Memqueue.Ledger.{hit, Ledger}
use memqueue.Memqueue.Links.Unbound.{Bound}
use memqueue.Base.{deref-some}
use memqueue.Memqueue.Steps.Kept.{same_result, retain_there}
use memqueue.Memqueue.Steps.Expired.{msg_expiry-Inv}
use memqueue.Memqueue.Steps.Linked.{delete_release, Step-Links}
use memqueue.Memqueue.Links.Made.{memqueue_init-Links}
use memqueue.Memqueue.Refs.{memqueue_msg_release}
use memqueue.Memqueue.Invariant.Retain.{memqueue_msg_retain_lem}
use memqueue.Memqueue.Steps.{
  Step, create, post, remove, retain, release, connect, bind, join, fetch, unbind, flush, resched,
  expire, expire_msg, erase_node, expire_queue,
}
use memqueue.Memqueue.Steps.Reached.{Step-Inv}
use memqueue.Memqueue.Steps.Announced.{announced_refs, refresh-Ledger}
use memqueue.Memqueue.Steps.Ended.{Sound, poll_end_lem}
use memqueue.Memqueue.Ledger.Taken.{retained-Ledger, enqueue_msgs-Ledger}
use memqueue.Memqueue.Ledger.Released.{
  memqueue_msg_release-Ledger, cli_binder_release_pending_msgs-Ledger,
}
use memqueue.Memqueue.Ledger.Kept.{
  same-Ledger, connect-Ledger, bind-Ledger, unbind-Ledger, resched-Ledger, clear-Ledger,
}
use memqueue.Memqueue.Ledger.Made.{
  kept_refs, memqueue_init-Ledger, create-Ledger, post-Ledger, release_queue-Ledger,
}

module _ (rb : RbTrees) where
  -- How a step changes what others than the clients hold. The cleaner's walk is taken by its rounds.
  abbrev pub Charges :
      {base : Ptr → ℕ} {s : Ins} {base' : Ptr → ℕ} {s' : Ins}
      → Step rb base s base' s'
      → (Ptr → ℕ → ℕ)
      → (Ptr → ℕ → ℕ)
      → Type 0
  Charges {s = s} (post now p q msecs body at room new e) held held' =
      held' ≡ (λ a j. kept_refs rb p (next_msg_id s) msecs a j + held a j)
  Charges {s = s} (join now p q id at n room unused e) held held' =
      held' ≡ (λ a j. announced_refs rb p id q s a j + held a j)
  Charges (retain r e) held held' = held' ≡ (λ a j. hit r.memqueue r.msg_id a j + held a j)
  Charges (release r e) held held' = held ≡ (λ a j. hit r.memqueue r.msg_id a j + held' a j)
  Charges (expire_msg i r rest e) held held' =
      held ≡ (λ a j. hit r.memqueue r.msg_id a j + held' a j)
  Charges (expire f now at e) held held' = ⊥
  Charges (create now a id absent e) held held' = held' ≡ held
  Charges (remove id p r named n e) held held' = held' ≡ held
  Charges (connect timeout) held held' = held' ≡ held
  Charges (bind p c rev include_consumers e) held held' = held' ≡ held
  Charges (fetch c p rev latest n client e) held held' = held' ≡ held
  Charges (unbind c e) held held' = held' ≡ held
  Charges (flush c e) held held' = held' ≡ held
  Charges (resched now p e) held held' = held' ≡ held
  Charges (erase_node i) held held' = held' ≡ held
  Charges (expire_queue i p rest n e) held held' = held' ≡ held

  -- What the server can come to, each reference that is given back being one that was taken.
  pub data Accounted : (Ptr → ℕ) → (Ptr → ℕ → ℕ) → Ins → Type 0 where
    start : Accounted (λ _. 0) (λ _ _. 0) memqueue_init
    next :
        {base base' : Ptr → ℕ} {held held' : Ptr → ℕ → ℕ} {s s' : Ins}
        → Accounted base held s
        → (step : Step rb base s base' s') → Charges step held held'
        → Accounted base' held' s'
    finish :
        {base : Ptr → ℕ} {held : Ptr → ℕ → ℕ} {s s' : Ins} (c : Ptr) (b : CliBinder)
        → Accounted base held s
        → s.clis c ≡ some b
        → Bound s b.memqueues
        → poll_end c s ≡ ok s'
        → Accounted base held s'

  given_back_held :
      {base : Ptr → ℕ} {held held' : Ptr → ℕ → ℕ} (r : MsgRef) (s s' : Ins)
      → held ≡ (λ a j. hit r.memqueue r.msg_id a j + held' a j)
      → memqueue_msg_release r s ≡ ok s'
      → Inv base s
      → Ledger held s
      → Ledger held' s'
  given_back_held {held' = held'} r s s' c e v l =
      let (_, run, _, l', _) =
        memqueue_msg_release-Ledger {held = held'} r.memqueue r.msg_id v
          (subst (λ h. Ledger h s) c l) in
      same_result (Ledger held') run e l'

  flushed :
      {base : Ptr → ℕ} {held : Ptr → ℕ → ℕ} (c : Ptr) (s s' : Ins)
      → cli_binder_release_pending_msgs c s ≡ ok s'
      → Inv base s
      → Ledger held s
      → Ledger held s'
  unfolding cli_binder_release_pending_msgs
  flushed {held = held} c s s' e v l =
      let (b, there, _) = >>=-eq-ok (deref (s.clis c)) _ e in
      let (_, run, _, l', _) =
        cli_binder_release_pending_msgs-Ledger c b v l (deref-some _ b there) in
      same_result (Ledger held) run e l'

  Step-Ledger :
      {base : Ptr → ℕ} {s : Ins} {base' : Ptr → ℕ} {s' : Ins} {held held' : Ptr → ℕ → ℕ}
      → (step : Step rb base s base' s') → Charges step held held'
      → Inv base s
      → Ledger held s
      → Ledger held' s'
  Step-Ledger {s = s} {s' = s'} (create now a id absent e) c v l =
      subst (λ h. Ledger h s') (sym c)
        (create-Ledger rb now a id s s' e (v.fresh s.next_ptr (omega arith)).0 l)
  Step-Ledger {s = s} {s' = s'} (post now p q msecs body at room new e) c v l =
      subst (λ h. Ledger h s') (sym c) (post-Ledger rb now p q msecs body s s' at room new e l)
  Step-Ledger {s = s} {s' = s'} (remove id p r named n e) c v l =
      subst (λ h. Ledger h s') (sym c)
        (release_queue-Ledger p s s' (delete_release id p r s s' named e) n v l)
  Step-Ledger {s = s} {s' = s'} (retain r e) c v l =
      let (q, m, at, found) = retain_there r s s' e in
      subst (λ h. Ledger h s') (sym c)
        (same_result (Ledger _) (memqueue_msg_retain_lem r.memqueue r.msg_id m q s at found) e
          (retained-Ledger s r.memqueue r.msg_id m q at found l))
  Step-Ledger {s = s} {s' = s'} (release r e) c v l = given_back_held r s s' c e v l
  Step-Ledger {s' = s'} (connect timeout) c v l =
      subst (λ h. Ledger h s') (sym c) (connect-Ledger timeout l)
  Step-Ledger {s' = s'} (bind p x rev include_consumers e) c v l =
      subst (λ h. Ledger h s') (sym c) (bind-Ledger p x rev include_consumers _ s' e l)
  Step-Ledger {s = s} {s' = s'} (join now p q id at n room unused e) c v l =
      subst (λ h. Ledger h s') (sym c) (refresh-Ledger rb now p q id s s' at room unused e l)
  Step-Ledger {s' = s'} (fetch x p rev latest n client e) c v l =
      subst (λ h. Ledger h s') (sym c) (enqueue_msgs-Ledger x p rev latest n _ s' e l)
  Step-Ledger {s' = s'} (unbind x e) c v l =
      subst (λ h. Ledger h s') (sym c) (unbind-Ledger x _ s' e l)
  Step-Ledger {s' = s'} (flush x e) c v l = subst (λ h. Ledger h s') (sym c) (flushed x _ s' e v l)
  Step-Ledger {s' = s'} (resched now p e) c v l =
      subst (λ h. Ledger h s') (sym c) (resched-Ledger rb now p _ s' e l)
  Step-Ledger (expire f now at e) c v l = absurd c
  Step-Ledger {s = s} {s' = s'} (expire_msg i r rest e) c v l =
      let t = set_objs i rest s.msg_expiry in
      given_back_held r (record s { msg_expiry = t }) s' c e (msg_expiry-Inv t s v)
        (same-Ledger {s = s} _ refl refl (omega arith) l)
  Step-Ledger {s = s} {s' = s'} (erase_node i) c v l =
      subst (λ h. Ledger h s') (sym c) (same-Ledger {s = s} s' refl refl (omega arith) l)
  Step-Ledger {s = s} {s' = s'} (expire_queue {s' = s₁} i p rest n e) c v l =
      let s₀ : Ins = record s { memqueue_expiry = set_objs i rest s.memqueue_expiry } in
      subst (λ h. Ledger h s') (sym c)
        (clear-Ledger p s₁ (
          release_queue-Ledger p s₀ s₁ e n
            (same-Inv {s = s} {s' = s₀} v refl refl refl (omega arith))
            (same-Ledger {s = s} s₀ refl refl (omega arith) l)))

  -- In every state that the server comes to from its start by its steps and by polls that end, in any
  -- order, as long as each operation returns, the references of other holders than clients are taken
  -- before they are given back, and the queues of a poll that ends are there: the state is in order,
  -- each message counts exactly the references that clients have pending and those that the others
  -- hold, and each binder of a queue stands in its client's list.
  pub Accounted-Sound :
      {base : Ptr → ℕ} {held : Ptr → ℕ → ℕ} {s : Ins} → Accounted base held s → Sound base held s
  Accounted-Sound start = record {
    inv = memqueue_init-Inv;
    ledger = memqueue_init-Ledger;
    links = memqueue_init-Links;
  }
  Accounted-Sound (next r step c) =
      let v = Accounted-Sound r in
      record {
        inv = Step-Inv rb step v.inv;
        ledger = Step-Ledger step c v.inv v.ledger;
        links = Step-Links rb step v.links;
      }
  Accounted-Sound {base} {held} (finish c b r there bound e) =
      let (_, run, v', _) = poll_end_lem c b (Accounted-Sound r) there bound in
      same_result (Sound base held) run e v'
