-- ===== src/Memqueue/Ledger/Messages.antt =====
-- What the changes of a queue's messages do to the counts of their references.
use memqueue.Base.{
  ℕ, ◌+◌, ◌≤◌, ◌≡◌, ◌≢◌, List, [], ◌∷◌, ◌++◌, none, some, refl, ◌==◌, if◌then◌else◌, arith,
  Bool-cases, inl, inr,
}
use memqueue.Memqueue.Types.{Msg}
use memqueue.Memqueue.Refs.{find_msg, set_msg, erase_msg}
use memqueue.Memqueue.Refs.Lists.{refs}
use memqueue.Memqueue.Ledger.{refs_of, numbered}

pub refs_of-le : (i : ℕ) (ms : List Msg) → refs_of i ms ≤ refs ms
unfolding refs_of refs
refs_of-le i [] = omega arith
refs_of-le i (m ∷ ms) = ground (arith, refs_of-le i ms)

pub refs_of-append : (i : ℕ) (ms ns : List Msg) → refs_of i (ms ++ ns) ≡ refs_of i ms + refs_of i ns
unfolding refs_of
refs_of-append i [] ns = omega arith
refs_of-append i (m ∷ ms) ns = omega (arith, refs_of-append i ms ns)

pub numbered-append :
    (i : ℕ) (ms ns : List Msg) → numbered i (ms ++ ns) ≡ numbered i ms + numbered i ns
unfolding numbered
numbered-append i [] ns = omega arith
numbered-append i (m ∷ ms) ns = omega (arith, numbered-append i ms ns)

pub numbered-find : (i : ℕ) (ms : List Msg) → find_msg i ms ≡ none → numbered i ms ≡ 0
unfolding numbered find_msg
numbered-find i [] e = omega arith
numbered-find i (m ∷ ms) e = ground (arith, numbered-find i ms)

pub refs_of-numbered : (i : ℕ) (ms : List Msg) → numbered i ms ≡ 0 → refs_of i ms ≡ 0
unfolding numbered refs_of
refs_of-numbered i [] e = omega arith
refs_of-numbered i (m ∷ ms) e = ground (arith, refs_of-numbered i ms)

-- A message that is counted is there, with that count.
pub find-refs_of :
    (i : ℕ) (ms : List Msg)
    → numbered i ms ≤ 1
    → refs_of i ms ≢ 0
    → (m : Msg) × (find_msg i ms ≡ some m) × (m.ref_count ≡ refs_of i ms)
unfolding numbered refs_of find_msg
find-refs_of i [] l n = absurd (n (omega arith))
find-refs_of i (m ∷ ms) l n = elim (Bool-cases (m.msg_id == i)) [
  | inl here ↦
      let rest = refs_of-numbered i ms (ground (arith, l)) in
      (m, rw here refl, rw here (omega (arith, rest)))
  | inr later ↦
      let (x, found, count) = find-refs_of i ms (ground (arith, l)) (ground (arith, n)) in
      (x, rw later found, rw later (omega (arith, count)))
]

module _ (i : ℕ) (m : Msg) where
  pub find-msg_id : (ms : List Msg) → find_msg i ms ≡ some m → m.msg_id ≡ i
  unfolding find_msg
  find-msg_id [] e = ground arith
  find-msg_id (x ∷ ms) e = ground (arith, find-msg_id ms)

  module _ (m' : Msg) (same : m'.msg_id ≡ m.msg_id) where
    pub refs_of-set :
        (j : ℕ) (ms : List Msg)
        → find_msg i ms ≡ some m
        → refs_of j (set_msg i m' ms) + (if i == j then m.ref_count else 0)
          ≡ refs_of j ms + (if i == j then m'.ref_count else 0)
    unfolding refs_of set_msg find_msg
    refs_of-set j [] e = ground arith
    refs_of-set j (x ∷ ms) e = ground (arith, refs_of-set j ms, same)

    pub numbered-set :
        (j : ℕ) (ms : List Msg)
        → find_msg i ms ≡ some m
        → numbered j (set_msg i m' ms) ≡ numbered j ms
    unfolding numbered set_msg find_msg
    numbered-set j [] e = ground arith
    numbered-set j (x ∷ ms) e = ground (arith, numbered-set j ms, same)

  pub refs_of-erase :
      (j : ℕ) (ms : List Msg)
      → find_msg i ms ≡ some m
      → refs_of j (erase_msg i ms) + (if i == j then m.ref_count else 0) ≡ refs_of j ms
  unfolding refs_of erase_msg find_msg
  refs_of-erase j [] e = ground arith
  refs_of-erase j (x ∷ ms) e = ground (arith, refs_of-erase j ms)

  pub numbered-erase : (j : ℕ) (ms : List Msg) → numbered j (erase_msg i ms) ≤ numbered j ms
  unfolding numbered erase_msg
  numbered-erase j [] = omega arith
  numbered-erase j (x ∷ ms) = ground (arith, numbered-erase j ms)
