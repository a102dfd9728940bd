-- ===== src/Memqueue/Invariant/View.antt =====
-- What the requests to src/memqueue.c can see of its queues, and a POST on it.
use memqueue.Base.{
  ℕ, ◌+◌, ◌≡◌, ◌≢◌, refl, ap, sym, ◌∙◌, true, false, List, [], ◌∷◌, ◌++◌, Option, none, some, Text,
  str_eq, str_eq_refl, eq_of_str_eq, ◌==◌, ==_iff, if◌then◌else◌, ok, arith, Bool-cases, inl, inr,
}
use memqueue.Base.Int.{ℤ}
use memqueue.Hash.{h_get}
use memqueue.Memqueue.Types.{Ptr, Queue, Ins, RbTrees}
use memqueue.Memqueue.Respond.{Reply}
use memqueue.Memqueue.Handlers.{post_msg}
use memqueue.Memqueue.Invariant.{Inv}
use memqueue.Memqueue.Invariant.Notify.{contents}
use memqueue.Memqueue.Invariant.Room.{CanPost}
use memqueue.Memqueue.Invariant.Post.{made_room, refused, post_msg_lem}

-- A queue as its revision and its messages, each with its revision.
abbrev pub Log : Type 0
Log = ℕ × List (ℕ × Text)

abbrev pub log_of : Queue → Log
log_of q = (q.rev, contents q.msg_queue)

abbrev seen : Option Queue → Option Log
seen none = none
seen (some q) = some (log_of q)

abbrev look : (Ptr → Option Queue) → Option Ptr → Option Log
look queues none = none
look queues (some p) = seen (queues p)

-- The server as a map from names to queues.
abbrev pub view : Ins → Text → Option Log
view s id = look s.queues (h_get s.queue_store id)

-- A POST on that view.
abbrev pub posted : Queue → Text → Log
posted q body =
    if refused q
    then log_of q
    else (q.rev + 1, contents (made_room q).msg_queue ++ (q.rev + 1, body) ∷ [])

view_at :
    (s : Ins) (id : Text) (p : Ptr) (q : Queue)
    → h_get s.queue_store id ≡ some p
    → s.queues p ≡ some q
    → view s id ≡ some (log_of q)
view_at s id p q named at = ap (look s.queues) named ∙ ap seen at

look_same :
    (f g : Ptr → Option Queue) (o : Option Ptr)
    → ((a : Ptr) → o ≡ some a → f a ≡ g a)
    → look f o ≡ look g o
look_same f g none e = refl
look_same f g (some a) e = ap seen (e a refl)

-- Two names of one address are the same.
one_name :
    {base : Ptr → ℕ} {s : Ins} (x id : Text) (p : Ptr)
    → Inv base s
    → h_get s.queue_store x ≡ some p
    → h_get s.queue_store id ≡ some p
    → str_eq x id ≡ true
one_name x id p v e e' =
    let (q, at, called) = v.stored x p e in
    let (q', at', called') = v.stored id p e' in
    let same : q ≡ q' = ground (arith, at, at') in
    rw (sym called, ap (λ (y : Queue). y.q_id) same, called') (str_eq_refl id)

-- Of two states with the same names that differ in one queue only, each other name is seen as before.
view_other :
    {base : Ptr → ℕ} (s s' : Ins) (id : Text) (p : Ptr)
    → Inv base s
    → s'.queue_store ≡ s.queue_store
    → ((a : Ptr) → (a == p) ≡ false → s'.queues a ≡ s.queues a)
    → h_get s.queue_store id ≡ some p
    → (x : Text) → str_eq x id ≡ false
    → view s' x ≡ view s x
view_other s s' id p v store others named x differs =
    (λ i. look s'.queues (h_get (store i) x))
    ∙ look_same s'.queues s.queues (h_get s.queue_store x) (λ a there. elim (Bool-cases (a == p)) [
      | inl hit ↦
          let there' = there ∙ ap some ((==_iff a p).0 hit) in
          absurd (ground (arith, one_name x id p v there' named, differs))
      | inr miss ↦ others a miss
    ])

posted_at :
    (q : Queue) (body : Text) (q' : Queue)
    → q'.rev ≡ (if refused q then q.rev else q.rev + 1)
    → contents q'.msg_queue ≡ (
        if refused q
        then contents q.msg_queue
        else contents (made_room q).msg_queue ++ (q.rev + 1, body) ∷ [])
    → log_of q' ≡ posted q body
posted_at q body q' e e' = elim (Bool-cases (refused q)) [
  | inl no_room ↦ rw no_room (λ i. (rw no_room at e i, rw no_room at e' i))
  | inr taken ↦ rw taken (λ i. (rw taken at e i, rw taken at e' i))
]

-- A POST, on what can be seen of the server: in a state in order, one to a queue of that name, whose
-- revision is below the largest int, which has its creation's reference, whose deadline is in the
-- tree, and that does not hold the message's number yet, returns, if every queue whose deadline is in the
-- tree is there; the name then leads to the queue with the message as its next revision and last, after
-- its head was tried if it was full (a head that has a reference stays), or unchanged if it is full and
-- does not drop from its head; and every other name leads to what it led to before.
pub post_msg-view :
    (rb : RbTrees) (now : ℕ) (id : Text) (msecs : ℤ) (body : Text) (base : Ptr → ℕ) (s : Ins)
    (p : Ptr) (q : Queue)
    → h_get s.queue_store id ≡ some p
    → CanPost base p q s
    → base p ≢ 0
    → (r : Reply) × (s' : Ins) × (post_msg rb now id msecs body s ≡ ok (r, s'))
      × Inv base s'
      × ((x : Text) → view s' x ≡ (if str_eq x id then some (posted q body) else view s x))
post_msg-view rb now id msecs body base s p q named c n =
    let (q', s', run, o) = post_msg_lem rb now id msecs body base s p named q c n in
    (
      _,
      s',
      run,
      o.inv,
      λ x. elim (Bool-cases (str_eq x id)) [
        | inl same ↦
            rw (same, eq_of_str_eq x id same)
              (view_at s' id p q' (ap (λ h. h_get h id) o.store ∙ named) o.at
                ∙ ap some (posted_at q body q' o.rev o.texts))
        | inr differs ↦ rw differs (view_other s s' id p c.inv o.store o.others named x differs)
      ],
    )
