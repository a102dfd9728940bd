-- ===== src/Memqueue/Invariant/Full.antt =====
-- What a full queue does about a new message: `is_memqueue_full` of src/memqueue.c.
use memqueue.Base.{
  ℕ, ◌+◌, ◌-◌, ◌⊎◌, ◌≡◌, ◌≢◌, refl, ap, sym, ◌∙◌, Bool, true, false, not, ◌||◌, List, [], ◌∷◌, some,
  ◌==◌, ne_==, Bool-cases, if◌then◌else◌, inl, inr, arith, ok, length,
}
use memqueue.Base.Int.{pos, leb_ℤ, ltb_ℤ}
use memqueue.Memqueue.Types.{Ptr, Msg, Queue, Ins, store_queue}
use memqueue.Memqueue.Refs.{
  find_msg, set_msg, erase_msg, memqueue_release, drop_queue_ref, memqueue_msg_release,
}
use memqueue.Memqueue.Refs.Counts.{retained, lowered, lowered_same}
use memqueue.Memqueue.Poll.{is_set}
use memqueue.Memqueue.Handlers.{first_msg, is_memqueue_full}
use memqueue.Memqueue.Invariant.{==_refl, store_queue-store_queue, update_at}
use memqueue.Memqueue.Invariant.Release.{drop_queue_ref-store}
use memqueue.Memqueue.Invariant.Retain.{ref_to, memqueue_msg_retain_lem}

-- A queue with a limit that it has reached.
abbrev pub is_full : Queue → Bool
is_full q = not (leb_ℤ q.max_size (pos 0) || ltb_ℤ (pos q.msgs_in_queue) q.max_size)

-- The queue after its head was tried: a first message without a reference is gone, and one that has
-- some stays, no longer new.
abbrev pub tried : Msg → List Msg → Queue → Queue
tried m ms q =
    if m.ref_count == 0
    then record q { msg_queue = ms; msgs_in_queue = q.msgs_in_queue - 1 }
    else record q { msg_queue = record m { new = 0 } ∷ ms }

abbrev pub try_head : Queue → Queue
try_head q = elim q.msg_queue [ [] ↦ q | m ∷ ms ↦ tried m ms q ]

pub try_head_lem :
    (q : Queue) (m : Msg) (ms : List Msg) → q.msg_queue ≡ m ∷ ms → try_head q ≡ tried m ms q
try_head_lem q m ms e = rw e refl

false_of_not : (b : Bool) → not b ≡ true → b ≡ false
false_of_not true e = sym e
false_of_not false e = refl

true_of_not : (b : Bool) → not b ≡ false → b ≡ true
true_of_not true e = refl
true_of_not false e = sym e

drop_some :
    (p : Ptr) (x : Queue) (c : ℕ) (t : Ins)
    → x.ref_count ≡ c
    → c ≢ 0
    → c - 1 ≢ 0
    → drop_queue_ref p x t ≡ ok (store_queue p (record x { ref_count = c - 1 }) t)
unfolding drop_queue_ref
drop_some p x c t e k k' = rw (drop_queue_ref, e, ne_== c 0 k, ne_== (c - 1) 0 k') refl

-- A release that leaves the queue a reference.
release_some :
    (p i : ℕ) (y : Msg) (x : Queue) (t : Ins)
    → t.queues p ≡ some x
    → find_msg i x.msg_queue ≡ some y
    → y.ref_count ≢ 0
    → x.ref_count ≢ 0
    → x.ref_count - 1 ≢ 0
    → memqueue_msg_release (ref_to p i) t
      ≡ ok (store_queue p (record (lowered i y x) { ref_count = x.ref_count - 1 }) t)
unfolding memqueue_msg_release memqueue_release
release_some p i y x t at found n k k' =
    rw (at, found, ne_== y.ref_count 0 n, ==_refl p)
      (drop_queue_ref-store p (lowered i y x) (lowered i y x) t
        ∙ drop_some p (lowered i y x) x.ref_count t (lowered_same i y x).1 k k')

module _ (p : Ptr) (m : Msg) (ms : List Msg) (q : Queue) (s : Ins) (at : s.queues p ≡ some q)
    (e : q.msg_queue ≡ m ∷ ms) (n : q.ref_count ≢ 0) where
  found : find_msg m.msg_id q.msg_queue ≡ some m
  unfolding find_msg
  found = rw (e, find_msg, ==_refl m.msg_id) refl

  abbrev q₁ : Queue
  q₁ = retained m.msg_id m q

  queue₁ : q₁.msg_queue ≡ record m { ref_count = m.ref_count + 1 } ∷ ms
  unfolding set_msg
  queue₁ = rw (e, set_msg, ==_refl m.msg_id) refl

  -- The first message once its reference is taken.
  abbrev m₁ : Msg
  m₁ = record m { ref_count = m.ref_count + 1 }

  found₁ : find_msg m.msg_id q₁.msg_queue ≡ some m₁
  unfolding find_msg
  found₁ = rw (queue₁, find_msg, ==_refl m.msg_id) refl

  given_back : record (lowered m.msg_id m₁ q₁) { ref_count = q₁.ref_count - 1 } ≡ tried m ms q
  unfolding set_msg erase_msg
  given_back =
      let b : q.ref_count + 1 - 1 ≡ q.ref_count = omega arith in
      let d : m.ref_count + 1 - 1 ≡ m.ref_count = omega arith in
      let a : erase_msg m.msg_id q₁.msg_queue ≡ ms =
        rw (queue₁, erase_msg, ==_refl m.msg_id) refl in
      let c : set_msg m.msg_id (record m₁ { new = 0; ref_count = m.ref_count }) q₁.msg_queue
          ≡ record m { new = 0 } ∷ ms =
        rw (queue₁, set_msg, ==_refl m.msg_id) refl in
      elim (Bool-cases (m.ref_count == 0)) [
        | inl z ↦
            rw (d, z)
              (λ i. record q {
                msg_queue = a i;
                ref_count = b i;
                msgs_in_queue = q.msgs_in_queue - 1;
              })
        | inr z ↦ rw (d, z) (λ i. record q { msg_queue = c i; ref_count = b i })
      ]

  released :
      memqueue_msg_release (ref_to p m.msg_id) (store_queue p q₁ s)
      ≡ ok (store_queue p (tried m ms q) s)
  released =
      release_some p m.msg_id m₁ q₁ (store_queue p q₁ s) (update_at s.queues p (some q₁)) found₁
        (λ z. omega (arith, z)) (λ z. omega (arith, z)) (λ z. omega (arith, z, n))
      ∙ ap ok (store_queue-store_queue p _ q₁ s)
      ∙ ap (λ x. ok (store_queue p x s)) given_back

  head_tried :
      is_full q ≡ true
      → is_set q.drop_from_head ≡ true
      → is_memqueue_full p s ≡ ok (false, store_queue p (tried m ms q) s)
  unfolding is_memqueue_full first_msg
  head_tried f d =
      let c : (leb_ℤ q.max_size (pos 0) || ltb_ℤ (pos q.msgs_in_queue) q.max_size) ≡ false =
        false_of_not _ f in
      rw (at, c, d, first_msg, e, memqueue_msg_retain_lem p m.msg_id m q s at found, released) refl

pub list_cases : (xs : List Msg) → (xs ≡ []) ⊎ ((m : Msg) × (ms : List Msg) × (xs ≡ m ∷ ms))
list_cases [] = inl refl
list_cases (m ∷ ms) = inr (m, ms, refl)

-- A queue that has messages, a limit and as many messages as the limit is not empty.
pub full_some :
    (q : Queue) → q.msgs_in_queue ≡ length q.msg_queue → is_full q ≡ true → q.msg_queue ≢ []
full_some q k f e = let z : length q.msg_queue ≡ 0 = ap length e in ground (arith, k, z, f)

-- The decision for a queue whose count of messages is right and that has a reference. Below its limit,
-- or without one, it takes the message and nothing changes. At its limit it refuses, and nothing
-- changes, unless it drops from its head: then it takes the message, its first message goes if that
-- has no reference, and stays otherwise, no longer new.
pub is_memqueue_full_lem :
    (p : Ptr) (q : Queue) (s : Ins)
    → s.queues p ≡ some q
    → q.msgs_in_queue ≡ length q.msg_queue
    → q.ref_count ≢ 0
    → is_memqueue_full p s
      ≡ ok (
          if is_full q
          then (if is_set q.drop_from_head
              then (false, store_queue p (try_head q) s)
              else (true, s))
          else (false, s))
unfolding is_memqueue_full
is_memqueue_full_lem p q s at k n = elim (Bool-cases (is_full q)) [
  | inr free ↦
      let c : (leb_ℤ q.max_size (pos 0) || ltb_ℤ (pos q.msgs_in_queue) q.max_size) ≡ true =
        true_of_not _ free in
      rw (at, c) refl
  | inl f ↦
      let c : (leb_ℤ q.max_size (pos 0) || ltb_ℤ (pos q.msgs_in_queue) q.max_size) ≡ false =
        false_of_not _ f in
      elim (Bool-cases (is_set q.drop_from_head)) [
        | inr keep ↦ rw (at, c, keep) refl
        | inl d ↦ elim (list_cases q.msg_queue) [
          | inl none_there ↦ absurd (full_some q k f none_there)
          | inr (m, ms, e) ↦
              head_tried p m ms q s at e n f d
              ∙ rw (f, d) (ap (λ x. ok (false, store_queue p x s)) (sym (try_head_lem q m ms e)))
        ]
      ]
]
