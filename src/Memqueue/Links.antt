-- ===== src/Memqueue/Links.antt =====
-- How the binders of src/memqueue.c link the queues and the clients: each stands in a list of its queue
-- and in a list of its client.
pub mod Kept
pub mod Same
pub mod Made
pub mod Unbound
pub mod Deleted
use memqueue.Base.{ℕ, ◌+◌, ◌≤◌, ◌≡◌, List, [], ◌∷◌, Option, none, some, ◌==◌, ◌&&◌, if◌then◌else◌}
use memqueue.Memqueue.Types.{Ptr, Queue, Binder, CliBinder, Ins}

-- How many binders of a queue's list have an address, and how many of those are a client's.
unfoldable pub at_address : Ptr → List Binder → ℕ
at_address a [] = 0
at_address a (b ∷ bs) = (if b.address == a then 1 else 0) + at_address a bs

unfoldable pub of_client : Ptr → Ptr → List Binder → ℕ
of_client c a [] = 0
of_client c a (b ∷ bs) =
    (if (b.cli_binder == c) && (b.address == a) then 1 else 0) + of_client c a bs

-- How many binders of a client's list are a queue's, at an address.
unfoldable pub of_queue : Ptr → Ptr → List Binder → ℕ
of_queue p a [] = 0
of_queue p a (b ∷ bs) = (if (b.memqueue == p) && (b.address == a) then 1 else 0) + of_queue p a bs

abbrev pub binders_of : Option CliBinder → List Binder
binders_of none = []
binders_of (some b) = b.memqueues

-- What a queue's list has of a client, the client's list has of the queue, but for the binders `debt`
-- that `c` is still to give up.
pub record LinksBut (c : Ptr) (debt : List Binder) (s : Ins) : Type 0 where
  pub linked :
      (p : Ptr) (q : Queue)
      → s.queues p ≡ some q
      → (x a : Ptr)
      → of_client x a q.memqueue_binders
        ≤ of_queue p a (binders_of (s.clis x)) + (if x == c then of_queue p a debt else 0)
  pub once :
      (p : Ptr) (q : Queue) → s.queues p ≡ some q → (a : Ptr) → at_address a q.memqueue_binders ≤ 1
  pub fresh :
      (p : Ptr) (q : Queue)
      → s.queues p ≡ some q
      → (a : Ptr) → s.next_ptr ≤ a
      → at_address a q.memqueue_binders ≡ 0
  pub fresh_clis : (x : Ptr) → s.next_ptr ≤ x → s.clis x ≡ none

abbrev pub Links : Ins → Type 0
Links s = LinksBut 0 [] s
