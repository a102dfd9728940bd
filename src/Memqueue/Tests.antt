-- ===== src/Memqueue/Tests.antt =====
-- A server with one queue, one message and one poller, which the theorems on src/memqueue.c are tried
-- on.
mod Accounted
mod Handlers
mod Polls
mod Reached
use memqueue.Base.{
  ℕ, ◌≡◌, ◌+◌, refl, [], ◌∷◌, none, some, false, Text, codes, str_eq, eq_of_str_eq, ok, arith, ◌==◌,
  Bool-cases, inl, inr, if◌then◌else◌, sym,
}
use memqueue.Base.Int.{pos, negsuc}
use memqueue.Hash.{h_init, h_insert, h_get}
use memqueue.Hash.Lookup.{IsValid, h_init-IsValid, h_insert-IsValid, h_insert_lem, h_get-h_init}
use memqueue.Expiry.{leaf, node}
use memqueue.Expiry.Plain.{plain}
use memqueue.Memqueue.Types.{Ptr, Msg, Binder, CliBinder, Queue, Ins, RbTrees, update}
use memqueue.Memqueue.Refs.{find_msg, memqueue_msg_retain, memqueue_msg_release}
use memqueue.Memqueue.Refs.Lists.{refs}
use memqueue.Memqueue.Refs.Counts.{QueueOk}
use memqueue.Memqueue.Message.{notify_binders, new_msg, push_msg, next_msg_id, memqueue_msg_create}
use memqueue.Memqueue.Invariant.{Live, Inv, Keeps}
use memqueue.Memqueue.Invariant.Retain.{ref_to, memqueue_msg_retain-Inv}
use memqueue.Memqueue.Invariant.Release.{memqueue_msg_release-Keeps}
use memqueue.Memqueue.Invariant.Notify.{Notified, notify_binders-Notified}
use memqueue.Memqueue.Types.{store_queue}
use memqueue.Memqueue.Poll.{is_set, cli_binder_enqueue_msgs}
use memqueue.Memqueue.Handlers.{is_memqueue_full, memqueue_init, memqueue_create}
use memqueue.Memqueue.Args.{CreateArgs}
use memqueue.Memqueue.Invariant.Deadlines.{QueuesThere}
use memqueue.Memqueue.Invariant.Open.{with_queue, memqueue_init-Inv, memqueue_create-Inv}
use memqueue.Memqueue.Sched.{sched_get_min_timeout, first_deadline}
use memqueue.Memqueue.Sched.Timeout.{present, time_left, sched_get_min_timeout_lem}
use memqueue.Memqueue.Invariant.Full.{is_full, try_head, is_memqueue_full_lem}
use memqueue.Base.{true, length, ◌%◌, ◌^◌, ◌++◌}
use memqueue.Memqueue.Invariant.Enqueue.{wanted_refs, handed, cli_binder_enqueue_msgs_lem}
use memqueue.Memqueue.Invariant.Added.{Added, memqueue_msg_create_lem}

abbrev trees : RbTrees
trees = record { of_msgs = plain; of_ptrs = plain }

abbrev news : Text
news = codes "news"

abbrev hello : Msg
hello = record { body = codes "hello"; ref_count = 1; rev = 1; new = 1; expiry = pos 0; msg_id = 1 }

abbrev binder : Binder
binder = record {
  address = 2;
  rev = pos 0;
  memqueue = 0;
  cli_binder = 1;
  include_consumers = pos 0;
}

abbrev poller : CliBinder
poller = record { timeout = 5; signalled = false; memqueues = binder ∷ []; pending_msgs = [] }

abbrev queue : Queue
queue = record {
  rev = 1;
  ref_count = 2;
  max_size = negsuc 0;
  drop_from_head = pos 0;
  q_id = news;
  msg_queue = hello ∷ [];
  memqueue_binders = binder ∷ [];
  expiry = 0;
  consumer_expiry = 10;
  consumers = h_init 512;
  expiry_node = none;
  msgs_in_queue = 1;
}

abbrev server : Ins
server = record {
  queue_store = (h_insert (h_init 512) news 0).0;
  memqueue_expiry = leaf;
  msg_expiry = leaf;
  consumer_expiry = leaf;
  signalled = false;
  unique_msg_id = 1;
  queues = update (λ _. none) 0 (some queue);
  clis = update (λ _. none) 1 (some poller);
  consumers = λ _. none;
  orphans = λ _. [];
  next_ptr = 3;
}

-- The creation's reference of the one queue.
abbrev base : Ptr → ℕ
base p = if p == 0 then 1 else 0

queue-QueueOk : QueueOk 1 queue
unfolding refs h_init
queue-QueueOk = record {
  counted = refl;
  held = refl;
  revs = (omega arith, omega arith);
  table = h_init-IsValid 512 (omega arith);
  idle = refl;
}

queue-Live : Live server.clis queue.memqueue_binders
queue-Live = ((poller, refl), tt)

empty-IsValid : IsValid (h_init {V = Ptr} 512)
empty-IsValid = h_init-IsValid 512 (omega arith)

server-stored :
    (id : Text) (p : Ptr)
    → h_get server.queue_store id ≡ some p
    → (q : Queue) × (server.queues p ≡ some q) × (q.q_id ≡ id)
server-stored id p e =
    let (_, g) = h_insert_lem (h_init 512) empty-IsValid news 0 id in
    elim (Bool-cases (str_eq id news)) [
      | inl t ↦ (
        queue,
        ground (arith, e, g, t, h_get-h_init {V = Ptr} 512 news),
        sym (eq_of_str_eq id news t),
      )
      | inr f ↦ absurd (ground (arith, e, g, f, h_get-h_init {V = Ptr} 512 id))
    ]

server-Inv : Inv base server
server-Inv = record {
  queue = λ p q e. ground (arith, e, queue-QueueOk);
  live = λ p q e. ground (arith, e, queue-Live);
  fresh = λ p l. ground (arith, l);
  table = h_insert-IsValid (h_init 512) empty-IsValid news 0;
  stored = server-stored;
}

found : find_msg 1 queue.msg_queue ≡ some hello
unfolding find_msg
found = refl

memqueue_msg_release-Keeps_example : Keeps base (memqueue_msg_release (ref_to 0 1) server)
memqueue_msg_release-Keeps_example =
    memqueue_msg_release-Keeps 0 1 hello queue server-Inv refl found (λ e. omega (arith, e))

notify_binders-Notified_example :
    (s' : Ins) × (notify_binders (binder ∷ []) 1 (ref_to 0 1) server ≡ ok s')
    × Notified base server (binder ∷ []) 1 0 hello queue s'
notify_binders-Notified_example =
    notify_binders-Notified (binder ∷ []) 1 0 hello queue server
      (record { inv = server-Inv; at = refl; found = found }) queue-Live

absent : find_msg (next_msg_id server) queue.msg_queue ≡ none
unfolding find_msg
absent = refl

memqueue_msg_create_lem_example :
    (s' : Ins) × (memqueue_msg_create trees 1000 0 (pos 5) (codes "more") server ≡ ok s')
    × Added base server 0 queue (pos 5) (codes "more") s'
memqueue_msg_create_lem_example =
    memqueue_msg_create_lem trees 1000 0 queue (pos 5) (codes "more") server-Inv refl (omega arith)
      absent

-- The queue with a limit of one message, from whose head it drops.
abbrev limited : Queue
limited = record queue { max_size = pos 1; drop_from_head = pos 1 }

abbrev limited_server : Ins
limited_server = record server { queues = update (λ _. none) 0 (some limited) }

is_memqueue_full_lem_example :
    is_memqueue_full 0 limited_server
    ≡ ok (
        if is_full limited
        then (if is_set limited.drop_from_head
            then (false, store_queue 0 (try_head limited) limited_server)
            else (true, limited_server))
        else (false, limited_server))
is_memqueue_full_lem_example =
    is_memqueue_full_lem 0 limited limited_server refl refl (λ e. omega (arith, e))

-- Its one message has a reference, and stays.
not_dropped : (try_head limited).msgs_in_queue ≡ 1
not_dropped = refl

-- The server when a message, a queue and no consumer are scheduled.
abbrev scheduled : Ins
scheduled = record server {
  msg_expiry = node leaf (record { node_id = 4; msecs = 1500; objs = ref_to 0 1 ∷ [] }) leaf;
  memqueue_expiry = node leaf (record { node_id = 5; msecs = 1200; objs = 0 ∷ [] }) leaf;
}

sched_get_min_timeout_lem_example :
    sched_get_min_timeout 1000 scheduled
    ≡ time_left (1000 % 2 ^ 32) (
        present (first_deadline scheduled.msg_expiry)
        ++ present (first_deadline scheduled.memqueue_expiry)
        ++ present (first_deadline scheduled.consumer_expiry))
sched_get_min_timeout_lem_example = sched_get_min_timeout_lem 1000 scheduled

abbrev create_args : CreateArgs
create_args = record {
  expiry = 30;
  max_size = pos 0;
  consumer_expiry = 10;
  drop_from_head = pos 0;
  q_id = some news;
}

unknown : h_get memqueue_init.queue_store news ≡ none
unfolding memqueue_init
unknown = h_get-h_init {V = Ptr} 128 news

pub no_deadlines : QueuesThere memqueue_init.queues memqueue_init.memqueue_expiry
unfolding memqueue_init
no_deadlines = tt

memqueue_create-Inv_example :
    (s' : Ins) × (memqueue_create trees 1000 create_args news memqueue_init ≡ ok s')
    × Inv (with_queue memqueue_init.next_ptr (λ _. 0)) s'
    × (h_get s'.queue_store news ≡ some memqueue_init.next_ptr)
memqueue_create-Inv_example =
    memqueue_create-Inv trees 1000 create_args news memqueue_init-Inv unknown no_deadlines

-- A poll from the revision 0.
cli_binder_enqueue_msgs_lem_example :
    (s' : Ins) × (cli_binder_enqueue_msgs 1 0 (pos 0) (pos 0) server
      ≡ ok (length (wanted_refs 0 (pos 0) (pos 0) queue.msg_queue), s'))
    × Inv base s'
    × (s'.clis 1 ≡ some (handed poller (wanted_refs 0 (pos 0) (pos 0) queue.msg_queue)))
cli_binder_enqueue_msgs_lem_example =
    cli_binder_enqueue_msgs_lem 1 0 (pos 0) (pos 0) poller queue server server-Inv refl refl

one_wanted : wanted_refs 0 (pos 0) (pos 0) queue.msg_queue ≡ ref_to 0 1 ∷ []
one_wanted = refl
