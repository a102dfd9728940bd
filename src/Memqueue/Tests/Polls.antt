-- ===== src/Memqueue/Tests/Polls.antt =====
-- The server of the tests when it is polled.
use memqueue.Base.{
  some, use_after_free, ℕ, ◌+◌, ◌≡◌, refl, [], ◌∷◌, none, Text, codes, length, ok, fault, ◌>>=◌,
  List,
}
use memqueue.Base.Int.{ℤ, pos}
use memqueue.Hash.{Hash, h_init, h_insert}
use memqueue.Expiry.{leaf, node, rb_search}
use memqueue.Memqueue.Sched.{memqueue_type, obj_sched_expire, memqueue_resched}
use memqueue.Memqueue.Types.{Ptr, CliBinder, Ins, update, store_cli}
use memqueue.Memqueue.Poll.{memqueue_bind, memqueue_unbind_all}
use memqueue.Memqueue.Respond.{QueueResult, memqueue_create_result}
use memqueue.Memqueue.Respond.Grouped.{messages_of, bodies_of, memqueue_create_result_lem}
use memqueue.Memqueue.Invariant.{Inv}
use memqueue.Memqueue.Invariant.Retain.{ref_to, store_cli-Inv}
use memqueue.Memqueue.Invariant.Unbind.{unbind_all-bind}
use memqueue.Memqueue.Tests.{trees, news, base, queue, hello, poller, server, server-Inv, found}

unbind_all-bind_example :
    (memqueue_bind 0 1 (pos 2) (pos 0) server >>= memqueue_unbind_all 1)
    ≡ memqueue_unbind_all 1 (record server { next_ptr = server.next_ptr + 1 })
unbind_all-bind_example = unbind_all-bind 0 1 (pos 2) (pos 0) server queue poller refl refl

-- The poller once it was given the message of the queue.
abbrev waiting : CliBinder
waiting = record poller { pending_msgs = ref_to 0 1 ∷ [] }

abbrev answering : Ins
answering = store_cli 1 waiting server

answering-Inv : Inv base answering
answering-Inv = store_cli-Inv server-Inv 1 poller waiting refl

memqueue_create_result_lem_example :
    (rs : List QueueResult) × (memqueue_create_result 1 answering ≡ ok (rs, answering))
    × ((id : Text) → messages_of id rs ≡ bodies_of id ((news, hello.body) ∷ []))
memqueue_create_result_lem_example =
    memqueue_create_result_lem 1 waiting ((news, hello.body) ∷ []) answering-Inv refl
      ((queue, hello, refl, found, refl), tt)

-- In place of the C library's `atoi` and `asprintf`.
abbrev atoi : Text → ℤ
atoi v = pos (length v)

abbrev to_decimal : ℕ → Text
to_decimal n = codes "1"

abbrev query : Hash Text
query = (h_insert (h_init 128) (codes "total_queues") (codes "2")).0

-- A deadline whose list has the address of a queue that is gone.
abbrev stale : List Ptr → Ins
stale ps = record server {
  memqueue_expiry = node leaf (record { node_id = 9; msecs = 1005; objs = ps }) leaf;
  queues = update (λ _. none) 0 (some (record queue { expiry_node = some 9 }));
}

freed_head : obj_sched_expire trees 1000 (memqueue_type 0) 5 (stale (7 ∷ [])) ≡ fault use_after_free
unfolding obj_sched_expire rb_search
freed_head = refl

freed_neighbour : memqueue_resched trees 1000 0 (stale (7 ∷ 0 ∷ [])) ≡ fault use_after_free
unfolding memqueue_resched
freed_neighbour = refl
