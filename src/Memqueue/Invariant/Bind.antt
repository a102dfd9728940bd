-- ===== src/Memqueue/Invariant/Bind.antt =====
-- A poller that is bound to a queue and the message that comes next: `memqueue_bind` and
-- `memqueue_msg_create` of src/memqueue.c.
use memqueue.Base.{
  ℕ, ◌+◌, ◌<◌, ◌≡◌, refl, ap, ◌∙◌, Bool, false, true, List, [], ◌∷◌, ◌++◌, some, none, Text, ◌==◌,
  if◌then◌else◌, arith, ok, ◌>>=◌,
}
use memqueue.Base.Int.{ℤ, pos, leb_ℤ}
use mathlib.Core.List.{append_assoc}
use memqueue.Memqueue.Types.{
  Ptr, MsgRef, Queue, Binder, CliBinder, Ins, RbTrees, store_queue, store_cli,
}
use memqueue.Memqueue.Refs.{find_msg}
use memqueue.Memqueue.Refs.Counts.{QueueOk}
use memqueue.Memqueue.Message.{int_max, next_msg_id, memqueue_msg_create}
use memqueue.Memqueue.Poll.{memqueue_bind}
use memqueue.Memqueue.Invariant.{Inv, Keeps, ==_refl, update_at, store_queue-Inv, same-Inv}
use memqueue.Memqueue.Invariant.Retain.{ref_to, store_cli-Inv, Live-store}
use memqueue.Memqueue.Invariant.Notify.{enqueued, deliver}
use memqueue.Memqueue.Invariant.Create.{memqueue_msg_create-Notified}

-- A client that was woken up, with the message after what it had.
abbrev pub Woken : List MsgRef → MsgRef → CliBinder → Type 0
Woken had r d = (rest : List MsgRef) × (d.signalled ≡ true) × (d.pending_msgs ≡ had ++ r ∷ rest)

enqueued-Woken :
    (had : List MsgRef) (r r' : MsgRef) (d : CliBinder)
    → Woken had r d
    → Woken had r (enqueued r' d)
enqueued-Woken had r r' d w =
    let (rest, _, e) = w in
    (rest ++ r' ∷ [], refl, ap (λ l. l ++ r' ∷ []) e ∙ append_assoc had (r ∷ rest) (r' ∷ []))

if_Woken :
    (had : List MsgRef) (r : MsgRef) (b : Bool) (d d' : CliBinder)
    → Woken had r d
    → Woken had r d'
    → Woken had r (if b then d else d')
if_Woken had r true d d' w w' = w
if_Woken had r false d d' w w' = w'

deliver-Woken :
    (had : List MsgRef) (r r' : MsgRef) (bs : List Binder) (rev : ℕ) (c : Ptr) (d : CliBinder)
    → Woken had r d
    → Woken had r (deliver bs rev r' c d)
deliver-Woken had r r' [] rev c d w = w
deliver-Woken had r r' (b ∷ bs) rev c d w = deliver-Woken had r r' bs rev c _ (
    if_Woken had r (leb_ℤ b.rev (pos rev)) _ d
      (if_Woken had r (b.cli_binder == c) (enqueued r' d) d (enqueued-Woken had r r' d w) w) w)

module _ {base : Ptr → ℕ} {s : Ins} (p c : Ptr) (rev include_consumers : ℤ) (q : Queue)
    (d : CliBinder) (v : Inv base s) (at : s.queues p ≡ some q) (there : s.clis c ≡ some d) where
  abbrev binder : Binder
  binder = record {
    address = s.next_ptr;
    rev = rev;
    memqueue = p;
    cli_binder = c;
    include_consumers = include_consumers;
  }

  abbrev d' : CliBinder
  d' = record d { memqueues = binder ∷ d.memqueues }

  abbrev q' : Queue
  q' = record q { memqueue_binders = binder ∷ q.memqueue_binders }

  abbrev bound : Ins
  bound = record (store_queue p q' (store_cli c d' s)) { next_ptr = s.next_ptr + 1 }

  bind_run : memqueue_bind p c rev include_consumers s ≡ ok bound
  unfolding memqueue_bind
  bind_run = rw (there, at) refl

  q'-QueueOk : QueueOk (base p) q'
  q'-QueueOk =
      let k = v.queue p q at in
      record { counted = k.counted; held = k.held; revs = k.revs; table = k.table; idle = k.idle }

  bound-Inv : Inv base bound
  bound-Inv =
      same-Inv
        (store_queue-Inv (store_cli-Inv v c d d' there) p q q' at q'-QueueOk
          (
            (d', update_at s.clis c (some d')),
            Live-store v c d d' there q.memqueue_binders (v.live p q at),
          )
          refl)
        refl refl refl (omega arith)

  pub bind-Keeps : Keeps base (memqueue_bind p c rev include_consumers s)
  bind-Keeps = (bound, bind_run, bound-Inv)

  -- In a state in order, a client that is bound to a queue from a revision that the next message
  -- reaches is woken up by that message, and has it after what it had: both steps return, if the
  -- queue's revision is below the largest int and the queue does not hold the message's number, and
  -- the state is in order afterwards.
  pub bind-wakes :
      (rb : RbTrees) (now : ℕ) (msecs : ℤ) (body : Text)
      → leb_ℤ rev (pos (q.rev + 1)) ≡ true
      → q.rev < int_max
      → find_msg (next_msg_id s) q.msg_queue ≡ none
      → (s' : Ins) × (x : CliBinder) × ((memqueue_bind p c rev include_consumers s
            >>= memqueue_msg_create rb now p msecs body)
          ≡ ok s')
        × Inv base s'
        × (s'.clis c ≡ some x)
        × Woken d.pending_msgs (ref_to p (next_msg_id s)) x
  bind-wakes rb now msecs body reached room new =
      let r = ref_to p (next_msg_id s) in
      let (s', run, out) =
        memqueue_msg_create-Notified rb now p q' msecs body bound-Inv
          (update_at s.queues p (some q')) room new in
      (
        s',
        deliver q'.memqueue_binders (q.rev + 1) r c d',
        rw bind_run run,
        out.inv,
        out.served c d' (update_at s.clis c (some d')),
        deliver-Woken d.pending_msgs r r q.memqueue_binders (q.rev + 1) c _
            (rw (reached, ==_refl c) ([], refl, refl)),
      )
