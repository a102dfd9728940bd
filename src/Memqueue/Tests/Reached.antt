-- ===== src/Memqueue/Tests/Reached.antt =====
-- A server with a client and a queue, from its start.
use memqueue.Base.{◌≡◌, ap, sym, ◌∙◌, Run, ok, fault}
use memqueue.Memqueue.Types.{Ins}
use memqueue.Memqueue.Poll.{cli_binder_create}
use memqueue.Memqueue.Handlers.{memqueue_init, memqueue_create}
use memqueue.Memqueue.Invariant.{Inv}
use memqueue.Memqueue.Invariant.Open.{with_queue, memqueue_init-Inv, memqueue_create-Inv}
use memqueue.Memqueue.Steps.{Reach, start, next, connect, create}
use memqueue.Memqueue.Steps.Reached.{Reach-Inv}
use memqueue.Memqueue.Tests.{trees, news, create_args, unknown, no_deadlines}

abbrev pub state_of : Run Ins → Ins
state_of (ok s) = s
state_of (fault why) = memqueue_init

abbrev with_news : Ins
with_news = state_of (memqueue_create trees 1000 create_args news memqueue_init)

created : memqueue_create trees 1000 create_args news memqueue_init ≡ ok with_news
created =
    let (s, run, _, _) =
      memqueue_create-Inv trees 1000 create_args news memqueue_init-Inv unknown no_deadlines in
    run ∙ ap ok (sym (ap state_of run))

abbrev with_client : Ins
with_client = (cli_binder_create 5 with_news).1

reached : Reach trees (with_queue memqueue_init.next_ptr (λ _. 0)) with_client
reached = next (next start (create 1000 create_args news unknown created)) (connect 5)

Reach-Inv_example : Inv (with_queue memqueue_init.next_ptr (λ _. 0)) with_client
Reach-Inv_example = Reach-Inv trees reached
