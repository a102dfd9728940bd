-- ===== src/Memqueue/Sched/Timeout.antt =====
-- How long the cleaner is to sleep: `sched_get_min_timeout` of src/memqueue_expiry.c.
use memqueue.Base.{
  ℕ, ◌-◌, ◌%◌, ◌^◌, ◌≡◌, refl, Bool, false, ◌||◌, List, [], ◌∷◌, ◌++◌, Option, none, some, ltb, leb,
  if◌then◌else◌, arith,
}
use memqueue.Memqueue.Types.{Ins}
use memqueue.Memqueue.Sched.{min_round, min_timeout, first_deadline, sched_get_min_timeout}

abbrev pub present : Option ℕ → List ℕ
present none = []
present (some d) = d ∷ []

-- Whether a deadline has passed.
abbrev pub any_due : ℕ → List ℕ → Bool
any_due t [] = false
any_due t (d ∷ ds) = leb d t || any_due t ds

abbrev pub least : ℕ → List ℕ → ℕ
least d [] = d
least d (e ∷ es) = least (if ltb e d then e else d) es

-- The time to the first of the deadlines.
abbrev pub time_left : ℕ → List ℕ → ℕ
time_left t [] = 0
time_left t (d ∷ ds) = if any_due t (d ∷ ds) then 1 else least d ds - t

min_timeout_lem :
    (t : ℕ) (a b c : Option ℕ)
    → min_timeout t a b c ≡ time_left t (present a ++ present b ++ present c)
unfolding min_timeout min_round
min_timeout_lem t none none none = refl
min_timeout_lem t none none (some z) = ground arith
min_timeout_lem t none (some y) none = ground arith
min_timeout_lem t none (some y) (some z) = ground arith
min_timeout_lem t (some x) none none = ground arith
min_timeout_lem t (some x) none (some z) = ground arith
min_timeout_lem t (some x) (some y) none = ground arith
min_timeout_lem t (some x) (some y) (some z) = ground arith

-- The cleaner's sleep is the least distance from now to the first deadline of each tree; it is 1 when
-- one of these has passed, and 0 when nothing is scheduled.
pub sched_get_min_timeout_lem :
    (now : ℕ) (s : Ins)
    → sched_get_min_timeout now s
      ≡ time_left (now % 2 ^ 32) (
          present (first_deadline s.msg_expiry)
          ++ present (first_deadline s.memqueue_expiry)
          ++ present (first_deadline s.consumer_expiry))
unfolding sched_get_min_timeout
sched_get_min_timeout_lem now s =
    min_timeout_lem (now % 2 ^ 32) (first_deadline s.msg_expiry) (first_deadline s.memqueue_expiry)
      (first_deadline s.consumer_expiry)
