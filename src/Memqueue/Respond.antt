-- ===== src/Memqueue/Respond.antt =====
-- src/memqueue.c: the responses. What the JSON library is told to add is kept in order, since it is
-- the library that replaces a field added twice and prints the object.
pub mod Grouped
use memqueue.Base.{
  ℕ, Bool, false, List, [], ◌∷◌, ◌++◌, Option, none, some, Text, str_eq, codes, ◌==◌, ◌&&◌, ◌||◌,
  if◌then◌else◌, Run, ok, deref, ◌>>=◌, map,
}
use memqueue.Hash.{traverse}
use memqueue.Hash.Chain.{Item}
use memqueue.Memqueue.Types.{Ptr, MsgRef, Binder, Queue, Ins, store_queue}
use memqueue.Memqueue.Refs.{find_msg}
use memqueue.Memqueue.Poll.{is_set}

-- One queue of a poll's result.
pub record QueueResult : Type 0 where
  pub q_id : Text
  pub messages : List Text
  pub rev : ℕ
  pub consumers : Option (List Text)

-- `memqueue_ret_t`, with what `ptr` leads to. `MEMQUEUE_OK`, which nothing returns, is left out.
pub data Ret : Type 0 where
  not_found created exists timeout deleted full : Ret
  msg_added queue_info : Queue → Ret
  msgs : List QueueResult → Ret

pub data Field : Type 0 where
  version ret error ret_desc : Text → Field
  results : List QueueResult → Field
  rev msgs_in_queue : ℕ → Field

pub record Reply : Type 0 where
  pub resp_code : ℕ
  pub fields : List Field

-- The table `memqueue_ret`, column by column.
unfoldable pub resp_code : Ret → ℕ
resp_code not_found = 404
resp_code timeout = 408
resp_code _ = 200

unfoldable pub ret_str : Ret → Text
ret_str not_found = codes "MEMQUEUE_NOT_FOUND"
ret_str created = codes "MEMQUEUE_CREATED"
ret_str exists = codes "MEMQUEUE_EXISTS"
ret_str (msg_added q) = codes "MEMQUEUE_MSG_ADDED"
ret_str (msgs rs) = codes "MEMQUEUE_MSGS"
ret_str (queue_info q) = codes "MEMQUEUE_QUEUE_INFO"
ret_str timeout = codes "MEMQUEUE_TIMEOUT"
ret_str deleted = codes "MEMQUEUE_DELETED"
ret_str full = codes "MEMQUEUE_FULL"

unfoldable pub desc : Ret → Text
desc not_found = codes "memqueue not found"
desc created = codes "memqueue created successfully"
desc exists = codes "memqueue already exists"
desc (msg_added q) = codes "message added successfully"
desc (msgs rs) = []
desc (queue_info q) = codes "Queue information"
desc timeout = codes "poll timed out"
desc deleted = codes "memqueue deleted successfully"
desc full = codes "memqueue is full."

abbrev info_fields : Text → Queue → List Field
info_fields d q = ret_desc d ∷ rev q.rev ∷ msgs_in_queue q.msgs_in_queue ∷ []

-- The `switch`; the case of an added message falls through to the next.
unfoldable pub switch : Ret → List Field
unfolding desc
switch not_found = error (desc not_found) ∷ []
switch exists = error (desc exists) ∷ []
switch timeout = error (desc timeout) ∷ []
switch full = error (desc full) ∷ []
switch (msgs rs) = results rs ∷ []
switch (msg_added q) =
    ret_desc (desc (msg_added q)) ∷ rev q.rev ∷ info_fields (desc (msg_added q)) q
switch (queue_info q) = info_fields (desc (queue_info q)) q
switch deleted = []
switch created = []

unfoldable pub memqueue_respond : Ret → Reply
unfolding resp_code ret_str switch
memqueue_respond r = record {
  resp_code = resp_code r;
  fields = version (codes "memqueue 1.0") ∷ ret (ret_str r) ∷ switch r;
}

-- `json_object_object_get` on the result so far.
unfoldable pub has_result : Text → List QueueResult → Bool
has_result id [] = false
has_result id (r ∷ rs) = str_eq id r.q_id || has_result id rs

-- One more message in the array of its queue.
unfoldable pub add_message : Text → Text → List QueueResult → List QueueResult
add_message id body [] = []
add_message id body (r ∷ rs) =
    if str_eq id r.q_id
    then record r { messages = r.messages ++ body ∷ [] } ∷ rs
    else r ∷ add_message id body rs

-- Whether a binder of the client asks for the consumers of a queue.
unfoldable pub asks_consumers : Ptr → List Binder → Bool
asks_consumers p [] = false
asks_consumers p (b ∷ bs) = ((b.memqueue == p) && is_set b.include_consumers) || asks_consumers p bs

abbrev keys : List (Item Ptr) → List Text
keys = map λ x. x.key

-- A queue that comes up for the first time; the traversal moves the table's cursor.
unfoldable pub open_result : List Binder → Ptr → Ins → Run (QueueResult × Ins)
unfolding asks_consumers
open_result bs p s = do
  q ← deref (s.queues p)
  if asks_consumers p bs
      then (do
        (items, h) ← traverse q.consumers
        ok (
          record { q_id = q.q_id; messages = []; rev = q.rev; consumers = some (keys items) },
          store_queue p (record q { consumers = h }) s,
        ))
      else ok (record { q_id = q.q_id; messages = []; rev = q.rev; consumers = none }, s)

-- The array of results with one for the queue.
unfoldable pub entry :
    List Binder → Ptr → Text → List QueueResult → Ins → Run (List QueueResult × Ins)
unfolding has_result open_result
entry bs p id acc s =
    if has_result id acc
    then ok (acc, s)
    else (do (x, s₁) ← open_result bs p s; ok (acc ++ x ∷ [], s₁))

unfoldable pub result_loop :
    List Binder → List MsgRef → List QueueResult → Ins → Run (List QueueResult × Ins)
result_loop bs [] acc s = ok (acc, s)
result_loop bs (r ∷ rs) acc s = do
  q ← deref (s.queues r.memqueue)
  m ← deref (find_msg r.msg_id q.msg_queue)
  (acc', s') ← entry bs r.memqueue q.q_id acc s
  result_loop bs rs (add_message q.q_id m.body acc') s'

unfoldable pub memqueue_create_result : Ptr → Ins → Run (List QueueResult × Ins)
unfolding result_loop
memqueue_create_result c s = do b ← deref (s.clis c); result_loop b.memqueues b.pending_msgs [] s

-- What `memqueue_poll_queue` answers once its wait is over, or at once.
unfoldable pub poll_reply : Ptr → Ins → Run (Reply × Ins)
unfolding memqueue_respond memqueue_create_result
poll_reply c s = do
  b ← deref (s.clis c)
  elim b.pending_msgs [
    | [] ↦ ok (memqueue_respond timeout, s)
    | _ ∷ _ ↦ do (rs, s') ← memqueue_create_result c s; ok (memqueue_respond (msgs rs), s')
  ]
