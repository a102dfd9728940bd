-- ===== src/Memqueue/Invariant/Notify.antt =====
-- A message that is handed to pollers: the loop over the binders in `memqueue_msg_create` of
-- src/memqueue.c.
use memqueue.Base.{
  ℕ, ◌+◌, ◌≡◌, refl, ap, ◌∙◌, List, [], ◌∷◌, ◌++◌, Option, some, true, Text, ◌==◌, Bool-cases,
  if◌then◌else◌, inl, inr, arith, ok, map, false,
}
use memqueue.Base.Int.{pos, leb_ℤ}
use memqueue.Memqueue.Types.{
  Ptr, Msg, MsgRef, Queue, Binder, CliBinder, Ins, update, store_queue, store_cli,
}
use memqueue.Memqueue.Refs.{find_msg, set_msg}
use memqueue.Memqueue.Refs.Counts.{retained, retained-QueueOk}
use memqueue.Memqueue.Message.{cli_binder_enqueue_msg, cli_wakeup, notify_binders}
use memqueue.Memqueue.Invariant.{Live, Inv, ==_refl, update_at, store_queue-Inv}
use memqueue.Memqueue.Invariant.Retain.{ref_to, memqueue_msg_retain_lem, store_cli-Inv, Live-store}

-- What a poller can see of a queue's messages.
abbrev pub contents : List Msg → List (ℕ × Text)
contents = map λ m. (m.rev, m.body)

-- The queue but for its count of references and those of its messages.
abbrev pub uncounted : Msg → Msg
uncounted m = record m { ref_count = 0 }

abbrev pub bare : Queue → Queue
bare q = record q { ref_count = 0; msg_queue = map uncounted q.msg_queue }

-- `q'` differs from `q` in counts of references only.
pub record Kept (q q' : Queue) : Type 0 where
  pub rev : q'.rev ≡ q.rev
  pub msgs_in_queue : q'.msgs_in_queue ≡ q.msgs_in_queue
  pub expiry_node : q'.expiry_node ≡ q.expiry_node
  pub contents : contents q'.msg_queue ≡ contents q.msg_queue
  pub rest : bare q' ≡ bare q

pub Kept-trans : {q r t : Queue} → Kept q r → Kept r t → Kept q t
Kept-trans a b = record {
  rev = b.rev ∙ a.rev;
  msgs_in_queue = b.msgs_in_queue ∙ a.msgs_in_queue;
  expiry_node = b.expiry_node ∙ a.expiry_node;
  contents = b.contents ∙ a.contents;
  rest = b.rest ∙ a.rest;
}

module _ (i : ℕ) (m : Msg) (n : ℕ) where
  find-set :
      (ms : List Msg)
      → find_msg i ms ≡ some m
      → find_msg i (set_msg i (record m { ref_count = n }) ms) ≡ some (record m { ref_count = n })
  unfolding find_msg set_msg
  find-set [] e = ground arith
  find-set (x ∷ ms) e = ground (arith, find-set ms)

  contents-set :
      (ms : List Msg)
      → find_msg i ms ≡ some m
      → contents (set_msg i (record m { ref_count = n }) ms) ≡ contents ms
  unfolding find_msg set_msg
  contents-set [] e = refl
  contents-set (x ∷ ms) e = ground (arith, contents-set ms)

  uncounted-set :
      (ms : List Msg)
      → find_msg i ms ≡ some m
      → map uncounted (set_msg i (record m { ref_count = n }) ms) ≡ map uncounted ms
  unfolding find_msg set_msg
  uncounted-set [] e = refl
  uncounted-set (x ∷ ms) e = ground (arith, uncounted-set ms)

-- A queue with a message, in a state in order.
pub record Holds (base : Ptr → ℕ) (p i : ℕ) (q : Queue) (m : Msg) (s : Ins) : Type 0 where
  pub inv : Inv base s
  pub at : s.queues p ≡ some q
  pub found : find_msg i q.msg_queue ≡ some m

-- The state after one poller was served.
abbrev served : Ptr → CliBinder → ℕ → ℕ → Msg → Queue → Ins → Ins
served c b p i m q s =
    let b' : CliBinder = record b { pending_msgs = b.pending_msgs ++ ref_to p i ∷ [] } in
    store_cli c (record b' { signalled = true }) (store_queue p (retained i m q) (store_cli c b' s))

module _ {base : Ptr → ℕ} {s : Ins} (c : Ptr) (b : CliBinder) (p i : ℕ) (m : Msg) (q : Queue)
    (h : Holds base p i q m s) (there : s.clis c ≡ some b) where
  pub cli_binder_enqueue_msg_lem :
      cli_binder_enqueue_msg c (ref_to p i) s
      ≡ ok (
          store_queue p
            (retained i m q)
            (store_cli c (record b { pending_msgs = b.pending_msgs ++ ref_to p i ∷ [] }) s))
  unfolding cli_binder_enqueue_msg
  cli_binder_enqueue_msg_lem =
      rw there (memqueue_msg_retain_lem p i m q (store_cli c _ s) h.at h.found)

  pub retained-Holds :
      (b' : CliBinder)
      → Holds base p i
          (retained i m q)
          (record m { ref_count = m.ref_count + 1 })
          (store_queue p (retained i m q) (store_cli c b' s))
  retained-Holds b' = record {
    inv =
        store_queue-Inv (store_cli-Inv h.inv c b b' there) p q (retained i m q) h.at
          (retained-QueueOk (base p) i m q (h.inv.queue p q h.at) h.found)
          (Live-store h.inv c b b' there q.memqueue_binders (h.inv.live p q h.at)) refl;
    at = update_at s.queues p (some (retained i m q));
    found = find-set i m (m.ref_count + 1) q.msg_queue h.found;
  }

pub retained-Kept :
    (i : ℕ) (m : Msg) (q : Queue) → find_msg i q.msg_queue ≡ some m → Kept q (retained i m q)
retained-Kept i m q found = record {
  rev = refl;
  msgs_in_queue = refl;
  expiry_node = refl;
  contents = contents-set i m (m.ref_count + 1) q.msg_queue found;
  rest =
      ap (λ l. record q { ref_count = 0; msg_queue = l })
        (uncounted-set i m (m.ref_count + 1) q.msg_queue found);
}

-- How many of the binders are to get a message of the revision.
abbrev pub taken : List Binder → ℕ → ℕ
taken [] rev = 0
taken (b ∷ bs) rev = (if leb_ℤ b.rev (pos rev) then 1 else 0) + taken bs rev

abbrev pub enqueued : MsgRef → CliBinder → CliBinder
enqueued r d = record d { pending_msgs = d.pending_msgs ++ r ∷ []; signalled = true }

-- What becomes of a client, at an address, whom the message is queued for once for each of its
-- binders that are to get it.
abbrev pub deliver : List Binder → ℕ → MsgRef → Ptr → CliBinder → CliBinder
deliver [] rev r c d = d
deliver (b ∷ bs) rev r c d =
    deliver bs rev r c
      (if leb_ℤ b.rev (pos rev) then (if b.cli_binder == c then enqueued r d else d) else d)

-- The outcome for clients and binders and the message `m` of the queue `q`: the queue is there and
-- differs in references only, each client got its deliveries, the message a reference for each, and the
-- table and the deadlines of the queues are those of `s`.
pub record Notified (base : Ptr → ℕ) (s : Ins) (bs : List Binder) (rev p : ℕ) (m : Msg) (q : Queue)
    (s' : Ins) : Type 0 where
  pub inv : Inv base s'
  pub queue : Queue
  pub at : s'.queues p ≡ some queue
  pub kept : Kept q queue
  pub found :
      find_msg m.msg_id queue.msg_queue ≡ some (record m { ref_count = m.ref_count + taken bs rev })
  pub served :
      (c : Ptr) (d : CliBinder)
      → s.clis c ≡ some d
      → s'.clis c ≡ some (deliver bs rev (ref_to p m.msg_id) c d)
  pub timed : s'.memqueue_expiry ≡ s.memqueue_expiry
  pub store : s'.queue_store ≡ s.queue_store
  pub others : (a : Ptr) → (a == p) ≡ false → s'.queues a ≡ s.queues a

served_clis :
    (f : Ptr → Option CliBinder) (c a : Ptr) (d x d' : CliBinder) (r : MsgRef)
    → f c ≡ some d
    → f a ≡ some x
    → update (update f c (some d')) c (some (enqueued r d)) a
      ≡ some (if c == a then enqueued r x else x)
served_clis f c a d x d' r e e' = elim (Bool-cases (a == c)) [
  | inl hit ↦ ground (arith, e, e', hit)
  | inr miss ↦ ground (arith, e, e', miss)
]

-- In a state in order, the walk over binders of clients that are there returns. Each client has the
-- message queued once for each of its binders whose revision the queue has reached, the message's
-- count grows by their number, its queue keeps its contents, and the state is in order.
pub notify_binders-Notified :
    {base : Ptr → ℕ} (bs : List Binder) (rev p : ℕ) (m : Msg) (q : Queue) (s : Ins)
    → Holds base p m.msg_id q m s
    → Live s.clis bs
    → (s' : Ins) × (notify_binders bs rev (ref_to p m.msg_id) s ≡ ok s')
      × Notified base s bs rev p m q s'
unfolding notify_binders cli_wakeup
notify_binders-Notified [] rev p m q s h l = (
  s,
  refl,
  record {
    inv = h.inv;
    queue = q;
    at = h.at;
    kept = record {
      rev = refl;
      msgs_in_queue = refl;
      expiry_node = refl;
      contents = refl;
      rest = refl;
    };
    found = h.found ∙ ap (λ n. some (record m { ref_count = n })) (omega arith);
    served = λ c d e. e;
    timed = refl;
    store = refl;
    others = λ a n. refl;
  },
)
notify_binders-Notified {base} (b ∷ bs) rev p m q s h l =
    elim (Bool-cases (leb_ℤ b.rev (pos rev))) [
      | inr skip ↦
          let (s', run, out) = notify_binders-Notified bs rev p m q s h l.1 in
          (
            s',
            rw skip run,
            record {
              inv = out.inv;
              queue = out.queue;
              at = out.at;
              kept = out.kept;
              found =
                  out.found ∙ ap (λ n. some (record m { ref_count = n })) (rw skip (omega arith));
              served = λ a x e. rw skip (out.served a x e);
              timed = out.timed;
              store = out.store;
              others = out.others;
            },
          )
      | inl wanted ↦
          let i = m.msg_id in
          let c = b.cli_binder in
          let (d, there) = l.0 in
          let d' : CliBinder = record d { pending_msgs = d.pending_msgs ++ ref_to p i ∷ [] } in
          let q' = retained i m q in
          let s₁ = store_queue p q' (store_cli c d' s) in
          let h₁ = retained-Holds c d p i m q h there d' in
          let there₁ : s₁.clis c ≡ some d' = update_at s.clis c (some d') in
          let d'' : CliBinder = record d' { signalled = true } in
          let (s', run, out) =
            notify_binders-Notified {base = base} bs rev p
              (record m { ref_count = m.ref_count + 1 }) q' (store_cli c d'' s₁)
              (record { inv = store_cli-Inv h₁.inv c d' d'' there₁; at = h₁.at; found = h₁.found })
              (Live-store h₁.inv c d' d'' there₁ bs (Live-store h.inv c d d' there bs l.1)) in
          (
            s',
            rw (wanted, cli_binder_enqueue_msg_lem c d p i m q h there, ==_refl c) run,
            record {
              inv = out.inv;
              queue = out.queue;
              at = out.at;
              kept = Kept-trans (retained-Kept i m q h.found) out.kept;
              found =
                  out.found ∙ ap (λ n. some (record m { ref_count = n })) (rw wanted (omega arith));
              served = λ a x e.
                  rw wanted (out.served a _ (served_clis s.clis c a d x d' (ref_to p i) there e));
              timed = out.timed;
              store = out.store;
              others = λ a n. out.others a n ∙ rw n refl;
            },
          )
    ]
