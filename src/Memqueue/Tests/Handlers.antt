-- ===== src/Memqueue/Tests/Handlers.antt =====
-- The server of the tests when it is sent requests.
use memqueue.Base.{
  ◌+◌, ◌≡◌, refl, ◌∙◌, [], ◌∷◌, ◌++◌, none, some, codes, str_eq_refl, ok, arith, ◌>>=◌, ◌==◌,
  if◌then◌else◌, Text, str_eq,
}
use memqueue.Base.Int.{pos}
use memqueue.Hash.{h_init, h_get}
use memqueue.Memqueue.Tests.{
  trees, news, base, queue, poller, server, server-Inv, empty-IsValid, absent,
}
use memqueue.Hash.Lookup.{h_insert_lem, h_get-h_init}
use memqueue.Memqueue.Types.{Ptr, CliBinder, Queue, Ins}
use memqueue.Memqueue.Message.{next_msg_id, memqueue_msg_create}
use memqueue.Memqueue.Poll.{memqueue_bind}
use memqueue.Memqueue.Respond.{Reply, memqueue_respond, msg_added, full, deleted}
use memqueue.Memqueue.Handlers.{post_msg, on_queue_delete}
use memqueue.Memqueue.Invariant.{Inv}
use memqueue.Memqueue.Invariant.Retain.{ref_to}
use memqueue.Memqueue.Invariant.Notify.{contents}
use memqueue.Memqueue.Invariant.Room.{CanPost}
use memqueue.Memqueue.Invariant.Post.{Posted, made_room, refused, post_msg_lem}
use memqueue.Memqueue.Invariant.View.{view, posted, post_msg-view}
use memqueue.Memqueue.Invariant.Bind.{Woken, bind-wakes}
use memqueue.Memqueue.Invariant.Delete.{given_back, on_queue_delete_lem}

known : h_get server.queue_store news ≡ some 0
known =
    (h_insert_lem (h_init 512) empty-IsValid news 0 news).1
    ∙ rw (str_eq_refl news, h_get-h_init {V = Ptr} 512 news) refl

server-CanPost : CanPost base 0 queue server
server-CanPost = record {
  inv = server-Inv;
  at = refl;
  on_tree = tt;
  there = tt;
  room = omega arith;
  new = absent;
}

post_msg_lem_example :
    (q' : Queue) × (s' : Ins) × (post_msg trees 1000 news (pos 5) (codes "more") server
      ≡ ok (memqueue_respond (if refused queue then full else msg_added q'), s'))
    × Posted base server 0
        (if refused queue then queue.rev else queue.rev + 1)
        (if refused queue
          then contents queue.msg_queue
          else contents (made_room queue).msg_queue ++ (queue.rev + 1, codes "more") ∷ [])
        q'
        s'
post_msg_lem_example =
    post_msg_lem trees 1000 news (pos 5) (codes "more") base server 0 known queue server-CanPost
      (λ e. omega (arith, e))

on_queue_delete_lem_example :
    (s' : Ins) × (on_queue_delete news server ≡ ok (memqueue_respond deleted, s'))
    × Inv (given_back 0 base) s'
    × (h_get s'.queue_store news ≡ (if queue.ref_count == 1 then none else some 0))
on_queue_delete_lem_example =
    on_queue_delete_lem news 0 queue server-Inv known refl (λ e. omega (arith, e))

bind-wakes_example :
    (s' : Ins) × (x : CliBinder) × ((memqueue_bind 0 1 (pos 2) (pos 0) server
        >>= memqueue_msg_create trees 1000 0 (pos 5) (codes "more"))
      ≡ ok s')
    × Inv base s'
    × (s'.clis 1 ≡ some x)
    × Woken poller.pending_msgs (ref_to 0 (next_msg_id server)) x
bind-wakes_example =
    bind-wakes 0 1 (pos 2) (pos 0) queue poller server-Inv refl refl trees 1000 (pos 5)
      (codes "more") refl (omega arith) absent

post_msg-view_example :
    (r : Reply) × (s' : Ins) × (post_msg trees 1000 news (pos 5) (codes "more") server ≡ ok (r, s'))
    × Inv base s'
    × ((x : Text)
        → view s' x ≡ (if str_eq x news then some (posted queue (codes "more")) else view server x))
post_msg-view_example =
    post_msg-view trees 1000 news (pos 5) (codes "more") base server 0 queue known server-CanPost
      (λ e. omega (arith, e))
