-- ===== src/Memqueue/Steps/Served.antt =====
-- What holds before `cli_binder_enqueue_msgs` of src/memqueue.c and after each message that it gives a
-- client holds in the end.
use mathlib.Core.Path.{subst}
use memqueue.Base.{
  ℕ, ◌≡◌, List, [], ◌∷◌, Bool-cases, inl, inr, Run, ok, deref, ◌>>=◌, >>=-eq-ok, ok-injective,
}
use memqueue.Base.Int.{ℤ}
use memqueue.Memqueue.Types.{Ptr, Msg, MsgRef, Ins}
use memqueue.Memqueue.Message.{cli_binder_enqueue_msg}
use memqueue.Memqueue.Poll.{is_wanted, enqueue_loop, cli_binder_enqueue_msgs}
use memqueue.Memqueue.Invariant.Retain.{ref_to}

module _ (P : Ins → Type 0) (c p : Ptr) (rev latest : ℤ)
    (step : (r : MsgRef) (s s' : Ins) → cli_binder_enqueue_msg c r s ≡ ok s' → P s → P s') where
  enqueue_loop-keeps :
      (ms : List Msg) (n : ℕ) (s s' : Ins)
      → enqueue_loop ms c p rev latest s ≡ ok (n, s')
      → P s
      → P s'
  unfolding enqueue_loop
  enqueue_loop-keeps [] n s s' e v = subst (λ (r : ℕ × Ins). P r.1) (ok-injective e) v
  enqueue_loop-keeps (m ∷ ms) n s s' e v =
      let r = ref_to p m.msg_id in
      elim (Bool-cases (is_wanted rev latest m)) [
        | inr skip ↦
            let ((k, s₁), run, last) =
              >>=-eq-ok (enqueue_loop ms c p rev latest s) _ (rw skip at e) in
            subst (λ (x : ℕ × Ins). P x.1) (ok-injective last) (enqueue_loop-keeps ms k s s₁ run v)
        | inl wanted ↦
            let one : Ins → Run (ℕ × Ins) = λ x. ok (1, x) in
            let given : Run (ℕ × Ins) = (cli_binder_enqueue_msg c r s >>= one) in
            let ((k, s₁), run, rest) = >>=-eq-ok given _ (rw wanted at e) in
            let (s₂, took, same) = >>=-eq-ok (cli_binder_enqueue_msg c r s) one run in
            let v₁ : P s₁ =
              subst (λ (x : ℕ × Ins). P x.1) (ok-injective same) (step r s s₂ took v) in
            let ((j, s₃), walk, last) = >>=-eq-ok (enqueue_loop ms c p rev latest s₁) _ rest in
            subst (λ (x : ℕ × Ins). P x.1) (ok-injective last)
              (enqueue_loop-keeps ms j s₁ s₃ walk v₁)
      ]

  pub enqueue_msgs-keeps :
      (n : ℕ) (s s' : Ins) → cli_binder_enqueue_msgs c p rev latest s ≡ ok (n, s') → P s → P s'
  unfolding cli_binder_enqueue_msgs
  enqueue_msgs-keeps n s s' e v =
      let (q, _, walk) = >>=-eq-ok (deref (s.queues p)) _ e in
      enqueue_loop-keeps q.msg_queue n s s' walk v
