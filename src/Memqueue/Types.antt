-- ===== src/Memqueue/Types.antt =====
-- The structs of src/memqueue_impl.h, and the server's state: the globals of src/memqueue.c and the
-- objects that their pointers lead to.
use memqueue.Base.{none, true, false, ℕ, Bool, List, Option, some, Text, ◌==◌, if◌then◌else◌}
use memqueue.Base.Int.{ℤ}
use memqueue.Hash.{Hash}
use memqueue.Expiry.{Tree, RbTree}

abbrev pub Ptr : Type 0
Ptr = ℕ

-- `struct msg`. Its address is the pair of its queue and its `msg_id`. `data_len` is the length of
-- `body`; `expiry_node` is written and never read, and is left out.
pub record Msg : Type 0 where
  pub body : Text
  pub ref_count : ℕ
  pub rev : ℕ
  pub new : ℕ
  pub expiry : ℤ
  pub msg_id : ℕ

-- `msg_t *`, also what a `struct pending_msg` holds.
pub record MsgRef : Type 0 where
  pub memqueue : Ptr
  pub msg_id : ℕ

-- `struct memqueue_binder`, a member of two lists at once; it does not change after its creation, so
-- that both hold a copy, told apart by its address.
pub record Binder : Type 0 where
  pub address : Ptr
  pub rev : ℤ
  pub memqueue : Ptr
  pub cli_binder : Ptr
  pub include_consumers : ℤ

-- `struct cli_binder`; `signalled` is the state of its condition variable.
pub record CliBinder : Type 0 where
  pub timeout : ℕ
  pub signalled : Bool
  pub memqueues : List Binder
  pub pending_msgs : List MsgRef

-- `struct consumer`.
pub record Consumer : Type 0 where
  pub consumer_id : Text
  pub expiry : ℕ
  pub expiry_node : Option Ptr
  pub memqueue : Ptr

-- `struct memqueue`. The messages stand in the queue that they belong to.
pub record Queue : Type 0 where
  pub rev : ℕ
  pub ref_count : ℕ
  pub max_size : ℤ
  pub drop_from_head : ℤ
  pub q_id : Text
  pub msg_queue : List Msg
  pub memqueue_binders : List Binder
  pub expiry : ℕ
  pub consumer_expiry : ℕ
  pub consumers : Hash Ptr
  pub expiry_node : Option Ptr
  pub msgs_in_queue : ℕ

-- `struct memqueue_ins` with the heap. `signalled` is the state of `cond`, on which the cleaner
-- sleeps; `orphans` is the list of binders of each queue that was freed, which they stay in, as the
-- binders are not freed with it; `next_ptr` is the address that the allocator hands out next.
pub record Ins : Type 0 where
  pub queue_store : Hash Ptr
  pub memqueue_expiry : Tree Ptr
  pub msg_expiry : Tree MsgRef
  pub consumer_expiry : Tree Ptr
  pub signalled : Bool
  pub unique_msg_id : ℕ
  pub queues : Ptr → Option Queue
  pub clis : Ptr → Option CliBinder
  pub consumers : Ptr → Option Consumer
  pub orphans : Ptr → List Binder
  pub next_ptr : Ptr

abbrev pub is_there {ℓ} : {A : Type ℓ} → Option A → Bool
is_there none = false
is_there (some a) = true

-- A write to one address.
abbrev pub update {ℓ} : {A : Type ℓ} → (Ptr → Option A) → Ptr → Option A → Ptr → Option A
update f p c = λ a. if a == p then c else f a

abbrev pub store_queue : Ptr → Queue → Ins → Ins
store_queue p q s = record s { queues = update s.queues p (some q) }

abbrev pub store_cli : Ptr → CliBinder → Ins → Ins
store_cli p c s = record s { clis = update s.clis p (some c) }

-- The three instances of the red-black library.
pub record RbTrees : Type 0 where
  pub of_msgs : RbTree MsgRef
  pub of_ptrs : RbTree Ptr
