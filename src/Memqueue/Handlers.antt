-- ===== src/Memqueue/Handlers.antt =====
-- src/memqueue.c: the handlers of the routes. A handler runs to its end; that the response is
-- written before a handler's last step, and that other threads run meanwhile, is left out.
use memqueue.Base.{
  ℕ, ◌+◌, Bool, true, false, List, [], ◌∷◌, Option, none, some, Text, codes, ◌==◌, ◌||◌,
  if◌then◌else◌, Run, ok, deref, non_null, ◌>>=◌,
}
use memqueue.Base.Int.{ℤ, pos, negsuc, leb_ℤ, ltb_ℤ}
use memqueue.Hash.{Hash, h_init, h_get, h_insert}
use memqueue.Expiry.{leaf}
use memqueue.Memqueue.Types.{Ptr, Msg, MsgRef, Queue, Ins, RbTrees, store_queue}
use memqueue.Memqueue.Refs.{
  memqueue_retain, memqueue_release, memqueue_msg_retain, memqueue_msg_release,
}
use memqueue.Memqueue.Sched.{memqueue_type, obj_sched_expire, memqueue_resched}
use memqueue.Memqueue.Message.{memqueue_msg_create}
use memqueue.Memqueue.Poll.{is_set, poll_begin}
use memqueue.Memqueue.Respond.{
  Reply, memqueue_respond, not_found, created, exists, msg_added, queue_info, deleted, full,
}
use memqueue.Memqueue.Args.{
  CreateArgs, int_or_zero, args_memqueue_create_populate, args_memqueue_poll_populate,
}

-- `TAILQ_FIRST`
unfoldable pub first_msg : List Msg → Option Msg
first_msg [] = none
first_msg (m ∷ ms) = some m

-- Whether a message has to be refused. A full queue that drops from its head takes and gives back a
-- reference of its first message, which goes if nobody else holds one.
unfoldable pub is_memqueue_full : Ptr → Ins → Run (Bool × Ins)
unfolding first_msg
is_memqueue_full p s = do
  q ← deref (s.queues p)
  if leb_ℤ q.max_size (pos 0) || ltb_ℤ (pos q.msgs_in_queue) q.max_size
      then ok (false, s)
      else (if is_set q.drop_from_head
          then (do
            m ← non_null (first_msg q.msg_queue)
            let r : MsgRef = record { memqueue = p; msg_id = m.msg_id }
            s₁ ← memqueue_msg_retain r s
            s₂ ← memqueue_msg_release r s₁
            ok (false, s₂))
          else ok (true, s))

-- `memqueue_ins` when the server starts.
unfoldable pub memqueue_init : Ins
memqueue_init = record {
  queue_store = h_init 128;
  memqueue_expiry = leaf;
  msg_expiry = leaf;
  consumer_expiry = leaf;
  signalled = false;
  unique_msg_id = 0;
  queues = λ _. none;
  clis = λ _. none;
  consumers = λ _. none;
  orphans = λ _. [];
  next_ptr = 1;
}

abbrev pub new_queue : CreateArgs → Text → Queue
new_queue a id = record {
  rev = 0;
  ref_count = 0;
  max_size = a.max_size;
  drop_from_head = a.drop_from_head;
  q_id = id;
  msg_queue = [];
  memqueue_binders = [];
  expiry = a.expiry;
  consumer_expiry = a.consumer_expiry;
  consumers = h_init 128;
  expiry_node = none;
  msgs_in_queue = 0;
}

module _ (rb : RbTrees) (now : ℕ) where
  unfoldable pub memqueue_create : CreateArgs → Text → Ins → Run Ins
  memqueue_create a id s = do
    let p = s.next_ptr
    let s₁ = store_queue p (new_queue a id) (record s { next_ptr = p + 1 })
    s₂ ← (if a.expiry == 0 then ok s₁ else obj_sched_expire rb now (memqueue_type p) a.expiry s₁)
    s₃ ← memqueue_retain p s₂
    ok (record s₃ { queue_store = (h_insert s₃.queue_store id p).0 })

  unfoldable pub create_queue : CreateArgs → Ins → Run (Reply × Ins)
  unfolding memqueue_create
  create_queue a s = do
    id ← non_null a.q_id
    elim (h_get s.queue_store id) [
      | some _ ↦ ok (memqueue_respond exists, s)
      | none ↦ do s' ← memqueue_create a id s; ok (memqueue_respond created, s')
    ]

  -- The message is let in unless the queue is full, and the queue's expiry starts again either way.
  unfoldable pub post_msg : Text → ℤ → Text → Ins → Run (Reply × Ins)
  post_msg id expiry body s = elim (h_get s.queue_store id) [
    | none ↦ ok (memqueue_respond not_found, s)
    | some p ↦ do
      (is_full, s₁) ← is_memqueue_full p s
      (reply, s₂) ←
          (if is_full then ok (memqueue_respond full, s₁) else (do
            s' ← memqueue_msg_create rb now p expiry body s₁
            q ← deref (s'.queues p)
            ok (memqueue_respond (msg_added q), s')))
      s₃ ← memqueue_resched rb now p s₂
      ok (reply, s₃)
  ]

  module _ (atoi : Text → ℤ) (query : Hash Text) where
    -- PUT
    unfoldable pub on_queue_create : Option (Hash Text) → Ins → Run (Reply × Ins)
    unfolding create_queue
    on_queue_create path s = create_queue (args_memqueue_create_populate atoi query path) s

    -- POST, with the body of the request
    unfoldable pub on_msg_post : Hash Text → Text → Ins → Run (Reply × Ins)
    unfolding post_msg
    on_msg_post path body s = do
      id ← non_null (h_get path (codes "q_id"))
      post_msg id (int_or_zero atoi (h_get query (codes "expiry"))) body s

    -- GET, up to the wait
    unfoldable pub on_queue_poll :
        (ℕ → Text) → Option (Hash Text) → Ins → Run (Ptr × Bool × Bool × Ins)
    on_queue_poll to_decimal path s = do
      a ← args_memqueue_poll_populate atoi query to_decimal path
      poll_begin rb now a s

-- HEAD
unfoldable pub on_queue_info : Text → Ins → Run (Reply × Ins)
on_queue_info id s = elim (h_get s.queue_store id) [
  | none ↦ ok (memqueue_respond not_found, s)
  | some p ↦ do q ← deref (s.queues p); ok (memqueue_respond (queue_info q), s)
]

-- DELETE
unfoldable pub on_queue_delete : Text → Ins → Run (Reply × Ins)
on_queue_delete id s = elim (h_get s.queue_store id) [
  | none ↦ ok (memqueue_respond not_found, s)
  | some p ↦ do s' ← memqueue_release p s; ok (memqueue_respond deleted, s')
]

-- GET of a file: -2 before the path is made, so that the router goes on.
unfoldable on_serv_file : Text → Ins → ℤ × Ins
on_serv_file filename s = (negsuc 1, s)
