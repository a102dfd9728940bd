-- ===== src/Memqueue/Steps.antt =====
-- The server of src/memqueue.c as steps, one for each operation on its queues, messages, clients and
-- binders, and for the expiry of messages and of a queue in src/memqueue_expiry.c, in any order. A step is an
-- operation that returned.
pub mod Kept
pub mod Served
pub mod Joined
pub mod Announced
pub mod Expired
pub mod Ended
pub mod Linked
pub mod Accounted
pub mod Present
pub mod Polled
pub mod Reached
use memqueue.Base.{ℕ, ◌-◌, ◌<◌, ◌≡◌, ◌≢◌, List, Option, none, some, Text, ok}
use memqueue.Base.Int.{ℤ}
use memqueue.Hash.{h_get}
use memqueue.Memqueue.Types.{Ptr, Msg, MsgRef, Queue, Ins, RbTrees}
use memqueue.Memqueue.Refs.{find_msg, memqueue_release, memqueue_msg_retain, memqueue_msg_release}
use memqueue.Memqueue.Message.{int_max, next_msg_id, memqueue_msg_create}
use memqueue.Memqueue.Poll.{
  cli_binder_create, memqueue_refresh_consumer, cli_binder_enqueue_msgs, memqueue_bind,
  memqueue_unbind_all, cli_binder_release_pending_msgs,
}
use memqueue.Memqueue.Sched.{memqueue_resched}
use memqueue.Memqueue.Cleaner.{expire_msgs_loop, set_objs, clear_expiry_node}
use memqueue.Memqueue.Args.{CreateArgs}
use memqueue.Memqueue.Respond.{Reply}
use memqueue.Memqueue.Handlers.{memqueue_init, memqueue_create, on_queue_delete}
use memqueue.Memqueue.Invariant.Open.{with_queue}
use memqueue.Memqueue.Invariant.Delete.{given_back}

-- A step from the counts of the creations' references and a state to those after it.
pub data Step (rb : RbTrees) : (Ptr → ℕ) → Ins → (Ptr → ℕ) → Ins → Type 0 where
  create :
      {base : Ptr → ℕ} {s s' : Ins} (now : ℕ) (a : CreateArgs) (id : Text)
      → h_get s.queue_store id ≡ none
      → memqueue_create rb now a id s ≡ ok s'
      → Step rb base s (with_queue s.next_ptr base) s'
  post :
      {base : Ptr → ℕ} {s s' : Ins} (now : ℕ) (p : Ptr) (q : Queue) (msecs : ℤ) (body : Text)
      → s.queues p ≡ some q
      → q.rev < int_max
      → find_msg (next_msg_id s) q.msg_queue ≡ none
      → memqueue_msg_create rb now p msecs body s ≡ ok s'
      → Step rb base s base s'
  remove :
      {base : Ptr → ℕ} {s s' : Ins} (id : Text) (p : Ptr) (r : Reply)
      → h_get s.queue_store id ≡ some p
      → base p ≢ 0
      → on_queue_delete id s ≡ ok (r, s')
      → Step rb base s (given_back p base) s'
  retain :
      {base : Ptr → ℕ} {s s' : Ins} (r : MsgRef)
      → memqueue_msg_retain r s ≡ ok s'
      → Step rb base s base s'
  release :
      {base : Ptr → ℕ} {s s' : Ins} (r : MsgRef)
      → memqueue_msg_release r s ≡ ok s'
      → Step rb base s base s'
  connect :
      {base : Ptr → ℕ} {s : Ins} (timeout : ℕ) → Step rb base s base (cli_binder_create timeout s).1
  bind :
      {base : Ptr → ℕ} {s s' : Ins} (p c : Ptr) (rev include_consumers : ℤ)
      → memqueue_bind p c rev include_consumers s ≡ ok s'
      → Step rb base s base s'
  join :
      {base : Ptr → ℕ} {s s' : Ins} (now : ℕ) (p : Ptr) (q : Queue) (id : Text)
      → s.queues p ≡ some q
      → base p ≢ 0
      → q.rev < int_max
      → find_msg (next_msg_id s) q.msg_queue ≡ none
      → memqueue_refresh_consumer rb now p id s ≡ ok s'
      → Step rb base s base s'
  fetch :
      {base : Ptr → ℕ} {s s' : Ins} (c p : Ptr) (rev latest : ℤ) (n : ℕ)
      → s.clis c ≢ none
      → cli_binder_enqueue_msgs c p rev latest s ≡ ok (n, s')
      → Step rb base s base s'
  unbind :
      {base : Ptr → ℕ} {s s' : Ins} (c : Ptr)
      → memqueue_unbind_all c s ≡ ok s'
      → Step rb base s base s'
  flush :
      {base : Ptr → ℕ} {s s' : Ins} (c : Ptr)
      → cli_binder_release_pending_msgs c s ≡ ok s'
      → Step rb base s base s'
  resched :
      {base : Ptr → ℕ} {s s' : Ins} (now : ℕ) (p : Ptr)
      → memqueue_resched rb now p s ≡ ok s'
      → Step rb base s base s'
  expire :
      {base : Ptr → ℕ} {s s' : Ins} (f now : ℕ) (at : Option Ptr)
      → expire_msgs_loop rb f now at s ≡ ok s'
      → Step rb base s base s'
  expire_msg :
      {base : Ptr → ℕ} {s s' : Ins} (i : Ptr) (r : MsgRef) (rest : List MsgRef)
      → memqueue_msg_release r (record s { msg_expiry = set_objs i rest s.msg_expiry }) ≡ ok s'
      → Step rb base s base s'
  erase_node :
      {base : Ptr → ℕ} {s : Ins} (i : Ptr)
      → Step rb base s base (record s { msg_expiry = rb.of_msgs.rb_erase i s.msg_expiry })
  expire_queue :
      {base : Ptr → ℕ} {s s' : Ins} (i p : Ptr) (rest : List Ptr)
      → base p ≢ 0
      → memqueue_release p (record s { memqueue_expiry = set_objs i rest s.memqueue_expiry })
        ≡ ok s'
      → Step rb base s (given_back p base) (clear_expiry_node p s')

-- What the server can come to from its start.
pub data Reach (rb : RbTrees) : (Ptr → ℕ) → Ins → Type 0 where
  start : Reach rb (λ _. 0) memqueue_init
  next :
      {base base' : Ptr → ℕ} {s s' : Ins}
      → Reach rb base s
      → Step rb base s base' s'
      → Reach rb base' s'
