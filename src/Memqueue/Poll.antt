-- ===== src/Memqueue/Poll.antt =====
-- src/memqueue.c: a poll, up to the wait for a message and from there to its end.
use memqueue.Base.{
  ℕ, ◌+◌, Bool, true, false, List, [], ◌∷◌, ◌++◌, Option, none, some, Text, codes, ◌==◌, ◌&&◌, ◌||◌,
  not, if◌then◌else◌, Run, ok, deref, non_null, guard, use_after_free, ◌>>=◌, ◌>>◌,
}
use memqueue.Base.Int.{ℤ, pos, negsuc, ltb_ℤ, leb_ℤ}
use memqueue.Hash.{h_get, h_insert}
use memqueue.Memqueue.Types.{
  Ptr, Msg, MsgRef, Binder, CliBinder, Consumer, Ins, RbTrees, update, store_queue, store_cli,
}
use memqueue.Memqueue.Refs.{memqueue_retain, memqueue_msg_release}
use memqueue.Memqueue.Sched.{consumer_type, obj_sched_expire, memqueue_resched, consumer_resched}
use memqueue.Memqueue.Message.{cli_binder_enqueue_msg, memqueue_msg_create}

-- `poll_args_t`; the array is cut to its `total` entries.
pub record QueueArgs : Type 0 where
  pub rev : ℤ
  pub latest : ℤ
  pub consumer_id : Option Text
  pub q_id : Option Text
  pub include_consumers : ℤ

pub record PollArgs : Type 0 where
  pub queue_args : List QueueArgs
  pub timeout : ℕ

abbrev pub is_set : ℤ → Bool
is_set z = not (leb_ℤ z (pos 0) && leb_ℤ (pos 0) z)

-- The messages that a poller from `rev` on is given at once.
abbrev pub is_wanted : ℤ → ℤ → Msg → Bool
is_wanted rev latest m = ltb_ℤ rev (pos m.rev) || (is_set latest && (m.new == 1))

unfoldable pub enqueue_loop : List Msg → Ptr → Ptr → ℤ → ℤ → Ins → Run (ℕ × Ins)
enqueue_loop [] c p rev latest s = ok (0, s)
enqueue_loop (m ∷ ms) c p rev latest s = do
  (k, s') ←
      (if is_wanted rev latest m
        then (do
          s' ← cli_binder_enqueue_msg c (record { memqueue = p; msg_id = m.msg_id }) s
          ok (1, s'))
        else ok (0, s))
  (n, s'') ← enqueue_loop ms c p rev latest s'
  ok (k + n, s'')

-- The number of messages enqueued. The walk changes nothing of a message but its `ref_count`.
unfoldable pub cli_binder_enqueue_msgs : Ptr → Ptr → ℤ → ℤ → Ins → Run (ℕ × Ins)
unfolding enqueue_loop
cli_binder_enqueue_msgs c p rev latest s = do
  q ← deref (s.queues p)
  enqueue_loop q.msg_queue c p rev latest s

unfoldable pub cli_binder_create : ℕ → Ins → Ptr × Ins
cli_binder_create timeout s =
    let b : CliBinder = record {
      timeout = timeout;
      signalled = false;
      memqueues = [];
      pending_msgs = [];
    } in
    (s.next_ptr, store_cli s.next_ptr b (record s { next_ptr = s.next_ptr + 1 }))

unfoldable pub memqueue_bind : Ptr → Ptr → ℤ → ℤ → Ins → Run Ins
memqueue_bind p c rev include_consumers s = do
  b ← deref (s.clis c)
  q ← deref (s.queues p)
  let binder : Binder = record {
    address = s.next_ptr;
    rev = rev;
    memqueue = p;
    cli_binder = c;
    include_consumers = include_consumers;
  }
  let s₁ = store_cli c (record b { memqueues = binder ∷ b.memqueues }) s
  let s₂ = store_queue p (record q { memqueue_binders = binder ∷ q.memqueue_binders }) s₁
  ok (record s₂ { next_ptr = s.next_ptr + 1 })

module _ (rb : RbTrees) where
  -- A consumer that is not known yet is announced, and holds a reference of the queue.
  unfoldable pub memqueue_refresh_consumer : ℕ → Ptr → Text → Ins → Run Ins
  memqueue_refresh_consumer now p id s = do
    q ← deref (s.queues p)
    elim (h_get q.consumers id) [
      | some c ↦ consumer_resched rb now c s
      | none ↦ do
        let c = s.next_ptr
        let consumer : Consumer = record {
          consumer_id = id;
          expiry = q.consumer_expiry;
          expiry_node = none;
          memqueue = p;
        }
        let s₁ =
            store_queue p (record q { consumers = (h_insert q.consumers id c).0 })
              (record s { consumers = update s.consumers c (some consumer); next_ptr = c + 1 })
        s₂ ← memqueue_msg_create rb now p (pos 2000) (id ++ codes ":joined") s₁
        s₃ ← memqueue_retain p s₂
        obj_sched_expire rb now (consumer_type c) q.consumer_expiry s₃
    ]

  unfoldable pub refresh_if_asked : ℕ → Ptr → Option Text → Ins → Run Ins
  unfolding memqueue_refresh_consumer
  refresh_if_asked now p none s = ok s
  refresh_if_asked now p (some id) s = do
    q ← deref (s.queues p)
    if q.consumer_expiry == 0 then ok s else memqueue_refresh_consumer now p id s

  -- One queue of a poll. A revision that the queue has not reached asks for all of it.
  unfoldable pub poll_one : ℕ → Ptr → Ptr → QueueArgs → Ins → Run (ℕ × Ins)
  unfolding refresh_if_asked cli_binder_enqueue_msgs memqueue_bind
  poll_one now c p a s = do
    s₁ ← refresh_if_asked now p a.consumer_id s
    s₂ ← memqueue_resched rb now p s₁
    q ← deref (s₂.queues p)
    let rev = if ltb_ℤ (pos q.rev) a.rev then negsuc 0 else a.rev
    s₃ ← memqueue_bind p c rev a.include_consumers s₂
    cli_binder_enqueue_msgs c p rev a.latest s₃

  -- `total_msgs` and `total_bound_queues` at the end of the loop.
  unfoldable pub poll_loop : ℕ → Ptr → List QueueArgs → ℕ → ℕ → Ins → Run (ℕ × ℕ × Ins)
  unfolding poll_one
  poll_loop now c [] msgs bound s = ok (msgs, bound, s)
  poll_loop now c (a ∷ as') msgs bound s = do
    id ← non_null a.q_id
    (n, k, s') ← elim (h_get s.queue_store id) [
      | none ↦ ok (0, 0, s)
      | some p ↦ do (n, s') ← poll_one now c p a s; ok (n, 1, s')
    ]
    poll_loop now c as' (msgs + n) (bound + k) s'

  -- `memqueue_poll_queue` up to its wait: the binder, whether a queue was found, whether to wait.
  unfoldable pub poll_begin : ℕ → PollArgs → Ins → Run (Ptr × Bool × Bool × Ins)
  unfolding cli_binder_create poll_loop
  poll_begin now a s = do
    let (c, s₁) = cli_binder_create a.timeout s
    (msgs, bound, s₂) ← poll_loop now c a.queue_args 0 0 s₁
    if bound == 0
        then ok (c, false, false, record s₂ { clis = update s₂.clis c none })
        else ok (c, true, msgs == 0, s₂)

unfoldable pub remove_binder : Ptr → List Binder → List Binder
remove_binder a [] = []
remove_binder a (b ∷ bs) = if b.address == a then bs else b ∷ remove_binder a bs

abbrev pub without_orphan : Binder → Ins → Ins
without_orphan b s = record s {
  orphans = λ a. if a == b.memqueue then remove_binder b.address (s.orphans a) else s.orphans a;
}

-- Whether the binder is the first of a list, so that the list's own first pointer leads to it.
unfoldable pub is_head : Ptr → List Binder → Bool
is_head a [] = false
is_head a (b ∷ bs) = b.address == a

-- A removal from the list of a queue writes to the queue only where the binder is the first of it;
-- otherwise it writes to the binders before and after, which are not freed with the queue.
unfoldable pub unbind_loop : List Binder → Ins → Run Ins
unfolding remove_binder is_head
unbind_loop [] s = ok s
unbind_loop (b ∷ bs) s = elim (s.queues b.memqueue) [
  | some q ↦
      let q' = record q { memqueue_binders = remove_binder b.address q.memqueue_binders } in
      unbind_loop bs (store_queue b.memqueue q' s)
  | none ↦
      guard (not (is_head b.address (s.orphans b.memqueue))) use_after_free
      >> unbind_loop bs (without_orphan b s)
]

unfoldable pub memqueue_unbind_all : Ptr → Ins → Run Ins
unfolding unbind_loop
memqueue_unbind_all c s = do
  b ← deref (s.clis c)
  unbind_loop b.memqueues (store_cli c (record b { memqueues = [] }) s)

unfoldable pub release_loop : List MsgRef → Ins → Run Ins
release_loop [] s = ok s
release_loop (r ∷ rs) s = do s' ← memqueue_msg_release r s; release_loop rs s'

unfoldable pub cli_binder_release_pending_msgs : Ptr → Ins → Run Ins
unfolding release_loop
cli_binder_release_pending_msgs c s = do
  b ← deref (s.clis c)
  release_loop b.pending_msgs (store_cli c (record b { pending_msgs = [] }) s)

-- What follows the response: the binder lets go of its queues and its messages, and is freed.
unfoldable pub poll_end : Ptr → Ins → Run Ins
unfolding memqueue_unbind_all cli_binder_release_pending_msgs
poll_end c s = do
  s₁ ← memqueue_unbind_all c s
  s₂ ← cli_binder_release_pending_msgs c s₁
  ok (record s₂ { clis = update s₂.clis c none })
