-- ===== src/Memqueue/Steps/Polled.antt =====
-- A whole poll of src/memqueue.c, `memqueue_poll_queue`, of queues that are not polled on behalf of a
-- consumer.
use mathlib.Core.Path.{subst}
use memqueue.Base.{
  ℕ, ◌+◌, ◌≡◌, ◌≢◌, refl, Bool, true, false, List, [], ◌∷◌, Option, none, some, ◌==◌, if◌then◌else◌,
  Bool-cases, inl, inr, ok, deref, non_null, ◌>>=◌, >>=-eq-ok, ok-injective, Run,
}
use memqueue.Base.Int.{pos, negsuc, ltb_ℤ}
use memqueue.Hash.{h_get}
use memqueue.Memqueue.Types.{Ptr, CliBinder, Ins, RbTrees}
use memqueue.Memqueue.Sched.{memqueue_resched}
use memqueue.Memqueue.Poll.{
  QueueArgs, PollArgs, cli_binder_create, memqueue_bind, refresh_if_asked, poll_one, poll_loop,
  poll_begin, poll_end,
}
use memqueue.Memqueue.Invariant.{update_at}
use memqueue.Memqueue.Steps.{connect, bind, fetch, resched}
use memqueue.Memqueue.Steps.Present.{At, resched-At, bind-At, fetch-At}
use memqueue.Memqueue.Steps.Ended.{poll_end_lem}
use memqueue.Memqueue.Steps.Accounted.{Accounted, next, finish, Accounted-Sound}

-- None of the queues is polled on behalf of a consumer.
abbrev pub NoConsumers : List QueueArgs → Type 0
NoConsumers [] = Unit
NoConsumers (a ∷ as') = (a.consumer_id ≡ none) × NoConsumers as'

module _ (rb : RbTrees) (now : ℕ) (base : Ptr → ℕ) (held : Ptr → ℕ → ℕ) where
  -- A client in the middle of its poll.
  abbrev Polling : Ptr → Ins → Type 0
  Polling c s = At c s × Accounted rb base held s

  poll_one-Polling :
      (p c : Ptr) (a : QueueArgs) (n : ℕ) (s s' : Ins)
      → a.consumer_id ≡ none
      → poll_one rb now c p a s ≡ ok (n, s')
      → Polling c s
      → Polling c s'
  unfolding poll_one refresh_if_asked
  poll_one-Polling p c a n s s' alone e v =
      let (s₁, quiet, rest) = >>=-eq-ok (refresh_if_asked rb now p a.consumer_id s) _ e in
      let same : s ≡ s₁ = ok-injective (rw alone at quiet) in
      let (there, acc) = subst (Polling c) same v in
      let (s₂, sched, rest₁) = >>=-eq-ok (memqueue_resched rb now p s₁) _ rest in
      let there₂ = resched-At rb now c p s₁ s₂ sched there in
      let (q, _, rest₂) = >>=-eq-ok (deref (s₂.queues p)) _ rest₁ in
      let rev = if ltb_ℤ (pos q.rev) a.rev then negsuc 0 else a.rev in
      let (s₃, bound, given) = >>=-eq-ok (memqueue_bind p c rev a.include_consumers s₂) _ rest₂ in
      let there₃ = bind-At c p rev a.include_consumers s₂ s₃ bound there₂ in
      let here : s₃.clis c ≢ none = λ z. cc in
      (
        fetch-At c p rev a.latest n s₃ s' given there₃,
        next
            (next (next acc (resched now p sched) refl) (bind p c rev a.include_consumers bound)
              refl)
            (fetch c p rev a.latest n here given) refl,
      )

  -- A round, by whether the queue is found.
  round_Polling :
      (c : Ptr) (a : QueueArgs) (s : Ins) (found : Option Ptr) (x : ℕ × ℕ × Ins)
      → a.consumer_id ≡ none
      → elim found [
        | none ↦ ok (0, 0, s)
        | some p ↦ poll_one rb now c p a s >>= λ y. ok (y.0, 1, y.1)
      ]
        ≡ ok x
      → Polling c s
      → Polling c x.2
  round_Polling c a s none x alone e v =
      subst (λ (y : ℕ × ℕ × Ins). Polling c y.2) (ok-injective e) v
  round_Polling c a s (some p) x alone e v =
      let ((n, s₁), run, done) = >>=-eq-ok (poll_one rb now c p a s) _ e in
      subst (λ (y : ℕ × ℕ × Ins). Polling c y.2) (ok-injective done)
        (poll_one-Polling p c a n s s₁ alone run v)

  poll_loop-Polling :
      (c : Ptr) (as' : List QueueArgs) (msgs bound msgs' bound' : ℕ) (s s' : Ins)
      → NoConsumers as'
      → poll_loop rb now c as' msgs bound s ≡ ok (msgs', bound', s')
      → Polling c s
      → Polling c s'
  unfolding poll_loop
  poll_loop-Polling c [] msgs bound msgs' bound' s s' alone e v =
      subst (λ (x : ℕ × ℕ × Ins). Polling c x.2) (ok-injective e) v
  poll_loop-Polling c (a ∷ as') msgs bound msgs' bound' s s' (alone, others) e v =
      let (id, _, rest) = >>=-eq-ok (non_null a.q_id) _ e in
      let one : Ptr → Run (ℕ × ℕ × Ins) = λ p. poll_one rb now c p a s >>= λ x. ok (x.0, 1, x.1) in
      let round : Run (ℕ × ℕ × Ins) = elim (h_get s.queue_store id) [
        | none ↦ ok (0, 0, s)
        | some p ↦ one p
      ] in
      let ((n, k, s₁), run, last) = >>=-eq-ok round _ rest in
      let v₁ = round_Polling c a s (h_get s.queue_store id) (n, k, s₁) alone run v in
      poll_loop-Polling c as' (msgs + n) (bound + k) msgs' bound' s₁ s' others last v₁

  started : (timeout : ℕ) (s : Ins) → At s.next_ptr (cli_binder_create timeout s).1
  unfolding cli_binder_create
  started timeout s =
      let b : CliBinder = record {
        timeout = timeout;
        signalled = false;
        memqueues = [];
        pending_msgs = [];
      } in
      (b, update_at s.clis s.next_ptr (some b), tt)

  poll_begin-Polling :
      (a : PollArgs) (c : Ptr) (waits : Bool) (s s' : Ins)
      → NoConsumers a.queue_args
      → poll_begin rb now a s ≡ ok (c, true, waits, s')
      → Accounted rb base held s
      → Polling c s'
  unfolding poll_begin cli_binder_create
  poll_begin-Polling a c waits s s' alone e acc =
      let s₁ = (cli_binder_create a.timeout s).1 in
      let ((msgs, bound, s₂), run, done) =
        >>=-eq-ok (poll_loop rb now s.next_ptr a.queue_args 0 0 s₁) _ e in
      let v₂ =
        poll_loop-Polling s.next_ptr a.queue_args 0 0 msgs bound s₁ s₂ alone run
          (started a.timeout s, next acc (connect a.timeout) refl) in
      elim (Bool-cases (bound == 0)) [
        | inl nothing ↦ absurd (cc (ok-injective (rw nothing at done)))
        | inr something ↦
            subst (λ (y : Ptr × Bool × Bool × Ins). Polling y.0 y.3)
              (ok-injective (rw something at done)) v₂
      ]

  -- From a state that the server comes to, a poll of queues without consumers that found a queue, and
  -- returned up to its wait, can end: nothing faults, the client is gone, and the state is again one that
  -- the server comes to, the others holding the references that they held before the poll.
  pub poll_end-poll_begin :
      (a : PollArgs) (c : Ptr) (waits : Bool) (s s' : Ins)
      → NoConsumers a.queue_args
      → poll_begin rb now a s ≡ ok (c, true, waits, s')
      → Accounted rb base held s
      → (s'' : Ins) × (poll_end c s' ≡ ok s'') × Accounted rb base held s'' × (s''.clis c ≡ none)
  poll_end-poll_begin a c waits s s' alone e acc =
      let ((b, there, bound), acc') = poll_begin-Polling a c waits s s' alone e acc in
      let (s'', run, _, gone) = poll_end_lem c b (Accounted-Sound rb acc') there bound in
      (s'', run, finish c b acc' there bound run, gone)
