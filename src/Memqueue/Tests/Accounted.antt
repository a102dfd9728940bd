-- ===== src/Memqueue/Tests/Accounted.antt =====
-- A server of which a client has a message when its queue is deleted, from its start.
use memqueue.Base.{
  Run, Bool, true, str_eq, [], ◌∷◌, Option, ℕ, ◌+◌, ◌≡◌, ◌≢◌, refl, ap, sym, ◌∙◌, none, some, codes,
  ok, fault, use_after_free, arith,
}
use memqueue.Base.Int.{pos}
use memqueue.Hash.{h_get, h_insert, h_init}
use memqueue.Memqueue.Sched.{memqueue_resched}
use memqueue.Memqueue.Types.{Binder, Ptr, Queue, CliBinder, Ins}
use memqueue.Memqueue.Args.{CreateArgs}
use memqueue.Memqueue.Refs.{memqueue_retain, memqueue_msg_retain, find_msg}
use memqueue.Memqueue.Message.{next_msg_id, memqueue_msg_create}
use memqueue.Memqueue.Poll.{cli_binder_create, memqueue_bind, PollArgs, poll_begin, poll_end}
use memqueue.Memqueue.Respond.{memqueue_respond, deleted}
use memqueue.Memqueue.Handlers.{new_queue, memqueue_init, memqueue_create, on_queue_delete}
use memqueue.Memqueue.Invariant.Open.{with_queue, memqueue_init-Inv, memqueue_create-Inv}
use memqueue.Memqueue.Ledger.Made.{kept_refs}
use memqueue.Memqueue.Links.Unbound.{Bound}
use memqueue.Memqueue.Links.Deleted.{poll_end-on_queue_delete}
use memqueue.Memqueue.Steps.{create, connect, bind, post}
use memqueue.Memqueue.Steps.Kept.{same_result}
use memqueue.Memqueue.Steps.Ended.{Sound, poll_end_lem}
use memqueue.Memqueue.Steps.Polled.{poll_end-poll_begin}
use memqueue.Memqueue.Steps.Accounted.{Accounted, start, next, finish, Accounted-Sound}
use memqueue.Memqueue.Tests.{poller, trees, news, create_args, unknown, no_deadlines}
use memqueue.Memqueue.Tests.Reached.{state_of}

-- A queue without an expiry.
abbrev lasting : CreateArgs
lasting = record create_args { expiry = 0 }

abbrev found_or : {A : Type 0} → A → Option A → A
found_or a none = a
found_or a (some x) = x

abbrev opened : Ins
opened = state_of (memqueue_create trees 1000 lasting news memqueue_init)

abbrev p : Ptr
p = memqueue_init.next_ptr

abbrev c : Ptr
c = opened.next_ptr

opened_run : memqueue_create trees 1000 lasting news memqueue_init ≡ ok opened
unfolding memqueue_create memqueue_retain memqueue_init
opened_run = refl

abbrev bound : Ins
bound = state_of (memqueue_bind p c (pos 0) (pos 0) (cli_binder_create 5 opened).1)

bound_run : memqueue_bind p c (pos 0) (pos 0) (cli_binder_create 5 opened).1 ≡ ok bound
unfolding memqueue_bind memqueue_create memqueue_init cli_binder_create memqueue_retain
bound_run = refl

bound-Accounted : Accounted trees (with_queue p (λ _. 0)) (λ _ _. 0) bound
bound-Accounted =
    next (next (next start (create 1000 lasting news unknown opened_run) refl) (connect 5) refl)
      (bind p c (pos 0) (pos 0) bound_run) refl

abbrev told : Ins
told = state_of (memqueue_msg_create trees 1000 p (pos 0) (codes "more") bound)

told_run : memqueue_msg_create trees 1000 p (pos 0) (codes "more") bound ≡ ok told
unfolding memqueue_msg_create memqueue_bind memqueue_create memqueue_init cli_binder_create
    memqueue_retain memqueue_msg_retain find_msg
told_run = refl

abbrev queue : Queue
queue = found_or (new_queue lasting news) (bound.queues p)

told-Accounted :
    Accounted trees
      (with_queue p (λ _. 0))
      (λ a j. kept_refs trees p (next_msg_id bound) (pos 0) a j + 0)
      told
unfolding memqueue_bind memqueue_create memqueue_init cli_binder_create memqueue_retain find_msg
told-Accounted =
    next bound-Accounted (post 1000 p queue (pos 0) (codes "more") refl (omega arith) refl told_run)
      refl

abbrev client : CliBinder
client = found_or poller (told.clis c)

abbrev accounts : Ptr → ℕ → ℕ
accounts a j = kept_refs trees p (next_msg_id bound) (pos 0) a j + 0

there : told.clis c ≡ some client
unfolding memqueue_msg_create memqueue_bind memqueue_create memqueue_init cli_binder_create
    memqueue_retain memqueue_msg_retain find_msg
there = refl

its_queue : Bound told client.memqueues
unfolding memqueue_msg_create memqueue_bind memqueue_create memqueue_init cli_binder_create
    memqueue_retain memqueue_msg_retain find_msg
its_queue = ((found_or queue (told.queues p), refl), tt)

poll_end_lem_example :
    (s' : Ins) × (poll_end c told ≡ ok s')
    × Sound (with_queue p (λ _. 0)) accounts s'
    × (s'.clis c ≡ none)
poll_end_lem_example = poll_end_lem c client (Accounted-Sound trees told-Accounted) there its_queue

abbrev ended : Ins
ended = state_of (poll_end c told)

ended_run : poll_end c told ≡ ok ended
ended_run =
    let (_, run, _, _) =
      poll_end_lem c client (Accounted-Sound trees told-Accounted) there its_queue in
    run ∙ ap ok (sym (ap state_of run))

ended-Accounted : Accounted trees (with_queue p (λ _. 0)) accounts ended
ended-Accounted = finish c client told-Accounted there its_queue ended_run

Accounted-Sound_example : Sound (with_queue p (λ _. 0)) accounts ended
Accounted-Sound_example = Accounted-Sound trees ended-Accounted

known : h_get bound.queue_store news ≡ some p
unfolding memqueue_bind memqueue_create memqueue_init cli_binder_create memqueue_retain
known =
    let (_, run, _, named) =
      memqueue_create-Inv trees 1000 lasting news memqueue_init-Inv unknown no_deadlines in
    same_result (λ s. h_get s.queue_store news ≡ some p) run opened_run named

not_given_back : with_queue p (λ _. 0) p ≢ 0
unfolding memqueue_init
not_given_back e = omega (arith, e)

its_place : bound.queues p ≡ some queue
unfolding memqueue_bind memqueue_create memqueue_init cli_binder_create memqueue_retain
its_place = refl

counted_once : queue.ref_count ≡ 1
unfolding memqueue_bind memqueue_create memqueue_init cli_binder_create memqueue_retain
counted_once = refl

abbrev its_binder : Binder
its_binder = record {
  address = 3;
  rev = pos 0;
  memqueue = p;
  cli_binder = c;
  include_consumers = pos 0;
}

its_head : queue.memqueue_binders ≡ its_binder ∷ []
unfolding memqueue_bind memqueue_create memqueue_init cli_binder_create memqueue_retain
its_head = refl

poll_end-on_queue_delete_example :
    (s' : Ins) × (on_queue_delete news bound ≡ ok (memqueue_respond deleted, s'))
    × (poll_end its_binder.cli_binder s' ≡ fault use_after_free)
poll_end-on_queue_delete_example =
    poll_end-on_queue_delete news p queue its_binder [] (Accounted-Sound trees bound-Accounted)
      known its_place not_given_back counted_once its_head

opened-Accounted : Accounted trees (with_queue p (λ _. 0)) (λ _ _. 0) opened
opened-Accounted = next start (create 1000 lasting news unknown opened_run) refl

-- A poll of the queue for the messages after the revision 0.
abbrev poll : PollArgs
poll = record {
  queue_args =
      record {
        rev = pos 0;
        latest = pos 0;
        consumer_id = none;
        q_id = some news;
        include_consumers = pos 0;
      }
      ∷ [];
  timeout = 5;
}

abbrev state_after : Run (Ptr × Bool × Bool × Ins) → Ins
state_after (ok x) = x.3
state_after (fault why) = memqueue_init

abbrev polling : Ins
polling = state_after (poll_begin trees 1000 poll opened)

polling_run : poll_begin trees 1000 poll opened ≡ ok (c, true, true, polling)
unfolding poll_begin memqueue_create memqueue_init memqueue_retain h_get h_insert h_init str_eq
    memqueue_resched
polling_run = refl

poll_end-poll_begin_example :
    (s'' : Ins) × (poll_end c polling ≡ ok s'')
    × Accounted trees (with_queue p (λ _. 0)) (λ _ _. 0) s''
    × (s''.clis c ≡ none)
poll_end-poll_begin_example =
    poll_end-poll_begin trees 1000 (with_queue p (λ _. 0)) (λ _ _. 0) poll c true opened polling
      (refl, tt) polling_run opened-Accounted
