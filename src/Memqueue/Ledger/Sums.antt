-- ===== src/Memqueue/Ledger/Sums.antt =====
-- Sums over addresses, and what a write to one client changes of them.
use memqueue.Base.{
  ℕ, zero, suc, ◌+◌, ◌≤◌, ◌<◌, ◌≡◌, ◌≢◌, refl, List, [], ◌∷◌, ◌++◌, none, some, ◌==◌, Bool-cases,
  inl, inr, arith, ==_iff, ap, ◌∙◌, ◌-◌, ne_==,
}
use memqueue.Memqueue.Types.{Ptr, MsgRef, CliBinder, Ins, store_cli}
use memqueue.Memqueue.Invariant.{update_at}
use memqueue.Memqueue.Ledger.{occurs, total, pending_of, owed}

pub occurs-append :
    (rs ts : List MsgRef) (p i : ℕ) → occurs (rs ++ ts) p i ≡ occurs rs p i + occurs ts p i
occurs-append [] ts p i = omega arith
occurs-append (r ∷ rs) ts p i = omega (arith, occurs-append rs ts p i)

module _ (f g : Ptr → ℕ) where
  pub total_same : ((a : Ptr) → f a ≡ g a) → (n : ℕ) → total f n ≡ total g n
  unfolding total
  total_same e zero = refl
  total_same e (suc n) = omega (arith, e n, total_same e n)

  pub total_below : (c n : ℕ) → n ≤ c → ((a : Ptr) → a ≢ c → f a ≡ g a) → total f n ≡ total g n
  unfolding total
  total_below c zero l e = refl
  total_below c (suc n) l e =
      omega (arith, e n (λ z. omega (arith, z, l)), total_below c n (omega arith) e)

  -- Sums of functions that differ at one address.
  pub total_but :
      (c n : ℕ) → c < n → ((a : Ptr) → a ≢ c → f a ≡ g a) → total f n + g c ≡ total g n + f c
  unfolding total
  total_but c zero l e = absurd (omega arith)
  total_but c (suc n) l e = elim (Bool-cases (n == c)) [
    | inl last ↦ rw ((==_iff n c).0 last) (omega (arith, total_below c c (omega arith) e))
    | inr before ↦
        let other : n ≢ c = ground arith in
        omega (arith, e n other, total_but c n (omega (arith, l, other)) e)
  ]

pub total_beyond :
    (f : Ptr → ℕ) (n k : ℕ) → ((a : Ptr) → n ≤ a → f a ≡ 0) → total f (n + k) ≡ total f n
unfolding total
total_beyond f n zero z = ap (total f) {y = n} (omega arith)
total_beyond f n (suc k) z =
    ap (total f) {y = suc (n + k)} (omega arith)
    ∙ omega (arith, z (n + k) (omega arith), total_beyond f n k z)

-- A client whose pending messages change.
pub owed-store_cli :
    (s : Ins) (c : Ptr) (b b' : CliBinder) (p i : ℕ)
    → s.clis c ≡ some b
    → c < s.next_ptr
    → owed (store_cli c b' s) p i + occurs b.pending_msgs p i
      ≡ owed s p i + occurs b'.pending_msgs p i
owed-store_cli s c b b' p i there l =
    let f : Ptr → ℕ = λ a. pending_of ((store_cli c b' s).clis a) p i in
    let g : Ptr → ℕ = λ a. pending_of (s.clis a) p i in
    let after : f c ≡ occurs b'.pending_msgs p i =
      ap (λ o. pending_of o p i) (update_at s.clis c (some b')) in
    let before : g c ≡ occurs b.pending_msgs p i = ap (λ o. pending_of o p i) there in
    let others : (a : Ptr) → a ≢ c → f a ≡ g a = λ a n. rw (ne_== a c n) refl in
    omega (arith, total_but f g c s.next_ptr l others, after, before)

pub owed_more :
    (s : Ins) (n p i : ℕ)
    → ((c : Ptr) → s.next_ptr ≤ c → s.clis c ≡ none)
    → s.next_ptr ≤ n
    → total (λ c. pending_of (s.clis c) p i) n ≡ owed s p i
owed_more s n p i fresh l =
    ap (total λ c. pending_of (s.clis c) p i) {x = n} {y = s.next_ptr + (n - s.next_ptr)}
      (omega arith)
    ∙ total_beyond (λ c. pending_of (s.clis c) p i) s.next_ptr (n - s.next_ptr)
        (λ a k. ap (λ o. pending_of o p i) (fresh a k))
