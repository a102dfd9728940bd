-- ===== src/Memqueue/Ledger.antt =====
-- Who holds the references of each message of src/memqueue.c: the pollers, by their pending messages,
-- and others, such as the deadline of a message.
pub mod Sums
pub mod Messages
pub mod Taken
pub mod Released
pub mod Kept
pub mod Made
use memqueue.Base.{
  ℕ, zero, suc, ◌+◌, ◌≤◌, ◌≡◌, List, [], ◌∷◌, Option, none, some, ◌==◌, ◌&&◌, if◌then◌else◌,
}
use memqueue.Memqueue.Types.{Ptr, Msg, MsgRef, Queue, CliBinder, Ins}

-- 1 where the two messages are one.
abbrev pub hit : Ptr → ℕ → Ptr → ℕ → ℕ
hit p i a j = if (p == a) && (i == j) then 1 else 0

-- How often a message stands in a list of references.
abbrev pub occurs : List MsgRef → Ptr → ℕ → ℕ
occurs [] p i = 0
occurs (r ∷ rs) p i = hit r.memqueue r.msg_id p i + occurs rs p i

-- The sum over the addresses below a bound.
unfoldable pub total : (Ptr → ℕ) → ℕ → ℕ
total f zero = 0
total f (suc n) = f n + total f n

abbrev pub pending_of : Option CliBinder → Ptr → ℕ → ℕ
pending_of none p i = 0
pending_of (some b) p i = occurs b.pending_msgs p i

-- The references of a message that clients hold.
abbrev pub owed : Ins → Ptr → ℕ → ℕ
owed s p i = total (λ c. pending_of (s.clis c) p i) s.next_ptr

-- The count of references of the messages with a number, of which a queue has at most one.
unfoldable pub refs_of : ℕ → List Msg → ℕ
refs_of i [] = 0
refs_of i (m ∷ ms) = (if m.msg_id == i then m.ref_count else 0) + refs_of i ms

unfoldable pub numbered : ℕ → List Msg → ℕ
numbered i [] = 0
numbered i (m ∷ ms) = (if m.msg_id == i then 1 else 0) + numbered i ms

abbrev pub refs_at : Option Queue → ℕ → ℕ
refs_at none i = 0
refs_at (some q) i = refs_of i q.msg_queue

-- Each message counts the references that clients hold and those that `held` tells, and no others.
pub record Ledger (held : Ptr → ℕ → ℕ) (s : Ins) : Type 0 where
  pub exact : (p i : ℕ) → refs_at (s.queues p) i ≡ owed s p i + held p i
  pub once : (p : Ptr) (q : Queue) → s.queues p ≡ some q → (i : ℕ) → numbered i q.msg_queue ≤ 1
  pub fresh : (c : Ptr) → s.next_ptr ≤ c → s.clis c ≡ none
