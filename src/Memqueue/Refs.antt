-- ===== src/Memqueue/Refs.antt =====
-- Reference counts of src/memqueue.c: retain and release of queues and messages.
pub mod Lists
pub mod Counts
use memqueue.Base.{
  ℕ, ◌+◌, ◌-◌, List, [], ◌∷◌, Option, none, some, ◌==◌, if◌then◌else◌, Run, ok, fault, assertion,
  deref, ◌>>=◌,
}
use memqueue.Hash.{h_remove, traverse}
use memqueue.Hash.Chain.{Item}
use memqueue.Memqueue.Types.{Ptr, Msg, MsgRef, Queue, Consumer, Ins, update, store_queue}

unfoldable pub find_msg : ℕ → List Msg → Option Msg
find_msg i [] = none
find_msg i (m ∷ ms) = if m.msg_id == i then some m else find_msg i ms

-- A write through a message's pointer.
unfoldable pub set_msg : ℕ → Msg → List Msg → List Msg
set_msg i m' [] = []
set_msg i m' (m ∷ ms) = if m.msg_id == i then m' ∷ ms else m ∷ set_msg i m' ms

-- `TAILQ_REMOVE`
unfoldable pub erase_msg : ℕ → List Msg → List Msg
erase_msg i [] = []
erase_msg i (m ∷ ms) = if m.msg_id == i then ms else m ∷ erase_msg i ms

unfoldable pub memqueue_retain : Ptr → Ins → Run Ins
memqueue_retain p s = do
  q ← deref (s.queues p)
  ok (store_queue p (record q { ref_count = q.ref_count + 1 }) s)

-- `free(item->value)` for each consumer of a queue that goes.
unfoldable pub free_items : List (Item Ptr) → (Ptr → Option Consumer) → Ptr → Option Consumer
free_items [] heap = heap
free_items (x ∷ xs) heap = free_items xs (update heap x.value none)

-- The branch of `memqueue_release` that no reference is left in.
unfoldable pub free_queue : Ptr → Queue → Ins → Run Ins
unfolding free_items
free_queue p q s = do
  (items, _) ← traverse q.consumers
  ok (record s {
    queue_store = (h_remove s.queue_store q.q_id).0;
    consumers = free_items items s.consumers;
    queues = update s.queues p none;
    orphans = λ a. if a == p then q.memqueue_binders else s.orphans a;
  })

unfoldable pub drop_queue_ref : Ptr → Queue → Ins → Run Ins
drop_queue_ref p q s =
    if q.ref_count == 0
    then fault assertion
    else (if q.ref_count - 1 == 0
        then free_queue p (record q { ref_count = 0 }) s
        else ok (store_queue p (record q { ref_count = q.ref_count - 1 }) s))

unfoldable pub memqueue_release : Ptr → Ins → Run Ins
unfolding drop_queue_ref
memqueue_release p s = do q ← deref (s.queues p); drop_queue_ref p q s

unfoldable pub memqueue_msg_retain : MsgRef → Ins → Run Ins
memqueue_msg_retain r s = do
  q ← deref (s.queues r.memqueue)
  m ← deref (find_msg r.msg_id q.msg_queue)
  let m' = record m { ref_count = m.ref_count + 1 }
  let q' = record q { msg_queue = set_msg r.msg_id m' q.msg_queue }
  memqueue_retain r.memqueue (store_queue r.memqueue q' s)

-- The queue once a message's last reference is gone.
abbrev pub without_msg : ℕ → Queue → Queue
without_msg i q = record q {
  msg_queue = erase_msg i q.msg_queue;
  msgs_in_queue = q.msgs_in_queue - 1;
}

unfoldable pub memqueue_msg_release : MsgRef → Ins → Run Ins
memqueue_msg_release r s = do
  q ← deref (s.queues r.memqueue)
  m ← deref (find_msg r.msg_id q.msg_queue)
  let m' = record m { new = 0; ref_count = m.ref_count - 1 }
  if m.ref_count == 0
      then fault assertion
      else memqueue_release r.memqueue (
          store_queue r.memqueue
            (if m.ref_count - 1 == 0
              then without_msg r.msg_id q
              else record q { msg_queue = set_msg r.msg_id m' q.msg_queue })
            s)
