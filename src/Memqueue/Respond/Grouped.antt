-- ===== src/Memqueue/Respond/Grouped.antt =====
-- The messages of a poll's result, queue by queue: `memqueue_create_result` of src/memqueue.c.
use memqueue.Base.{
  ℕ, ◌≡◌, refl, ap, sym, ◌∙◌, Bool, true, false, List, [], ◌∷◌, ◌++◌, Option, none, some, Text,
  str_eq, str_eq_refl, eq_of_str_eq, if◌then◌else◌, ok, arith, Bool-cases, inl, inr,
}
use mathlib.Core.List.{append_assoc, append-nil}
use memqueue.Hash.Traverse.{traverse_same}
use memqueue.Memqueue.Types.{Ptr, Msg, MsgRef, Queue, Binder, CliBinder, Ins, store_queue}
use memqueue.Memqueue.Refs.{find_msg}
use memqueue.Memqueue.Respond.{
  QueueResult, has_result, keys, add_message, asks_consumers, open_result, entry, result_loop,
  memqueue_create_result,
}
use memqueue.Memqueue.Invariant.{Inv, update_self}

-- What a result has for a queue.
abbrev pub messages_of : Text → List QueueResult → List Text
messages_of id [] = []
messages_of id (r ∷ rs) = if str_eq id r.q_id then r.messages else messages_of id rs

-- The bodies of the messages of one queue, in order.
abbrev pub bodies_of : Text → List (Text × Text) → List Text
bodies_of id [] = []
bodies_of id (m ∷ ms) = if str_eq id m.0 then m.1 ∷ bodies_of id ms else bodies_of id ms

-- The messages that are referred to are there, and their queues' names and their bodies are these.
abbrev pub Named : Ins → List MsgRef → List (Text × Text) → Type 0
Named s [] [] = Unit
Named s [] (t ∷ ts) = ⊥
Named s (r ∷ rs) [] = ⊥
Named s (r ∷ rs) (t ∷ ts) =
    ((q : Queue) × (m : Msg) × (s.queues r.memqueue ≡ some q)
      × (find_msg r.msg_id q.msg_queue ≡ some m)
      × (t ≡ (q.q_id, m.body)))
    × Named s rs ts

differ : (a b : Text) → str_eq a b ≡ false → str_eq b a ≡ false
unfolding str_eq
differ [] [] e = e
differ [] (y ∷ ys) e = refl
differ (x ∷ xs) [] e = refl
differ (x ∷ xs) (y ∷ ys) e = ground (arith, differ xs ys)

add_message_lem :
    (id id' body : Text) (rs : List QueueResult)
    → has_result id' rs ≡ true
    → messages_of id (add_message id' body rs)
      ≡ messages_of id rs ++ (if str_eq id id' then body ∷ [] else [])
unfolding has_result add_message
add_message_lem id id' body [] h = ground arith
add_message_lem id id' body (r ∷ rs) h = elim (Bool-cases (str_eq id' r.q_id)) [
  | inl same ↦
      rw (eq_of_str_eq id' r.q_id same, str_eq_refl r.q_id)
        (elim (Bool-cases (str_eq id r.q_id)) [
          | inl hit ↦ rw hit refl
          | inr miss ↦ rw miss (sym (append-nil (messages_of id rs)))
        ])
  | inr other ↦
      let there : has_result id' rs ≡ true = ground (arith, h, other) in
      rw other (elim (Bool-cases (str_eq id r.q_id)) [
        | inl hit ↦
            let apart : str_eq id id' ≡ false =
              rw (eq_of_str_eq id r.q_id hit) (differ id' r.q_id other) in
            rw (hit, apart) (sym (append-nil r.messages))
        | inr miss ↦ rw miss (add_message_lem id id' body rs there)
      ])
]

put_in :
    (b : Bool) (l r : List Text) (x : Text)
    → (l ++ (if b then x ∷ [] else [])) ++ r ≡ l ++ (if b then x ∷ r else r)
put_in true l r x = append_assoc l (x ∷ []) r
put_in false l r x = ap (λ k. k ++ r) (append-nil l)

-- A queue that comes up for the first time is put last, without messages.
new_result_lem :
    (id : Text) (x : QueueResult) (rs : List QueueResult)
    → x.messages ≡ []
    → messages_of id (rs ++ x ∷ []) ≡ messages_of id rs
new_result_lem id x [] e = elim (Bool-cases (str_eq id x.q_id)) [
  | inl hit ↦ rw hit e
  | inr miss ↦ rw miss refl
]
new_result_lem id x (r ∷ rs) e = elim (Bool-cases (str_eq id r.q_id)) [
  | inl hit ↦ rw hit refl
  | inr miss ↦ rw miss (new_result_lem id x rs e)
]

has_new : (x : QueueResult) (rs : List QueueResult) → has_result x.q_id (rs ++ x ∷ []) ≡ true
unfolding has_result
has_new x [] = ground (arith, str_eq_refl x.q_id)
has_new x (r ∷ rs) = ground (arith, has_new x rs)

open_result_lem :
    {base : Ptr → ℕ} {s : Ins} (bs : List Binder) (p : Ptr) (q : Queue)
    → Inv base s
    → s.queues p ≡ some q
    → (x : QueueResult) × (open_result bs p s ≡ ok (x, s)) × (x.q_id ≡ q.q_id) × (x.messages ≡ [])
unfolding open_result
open_result_lem {base} {s} bs p q v at =
    let k = v.queue p q at in
    let bare : Option (List Text) → QueueResult =
      λ l. record { q_id = q.q_id; messages = []; rev = q.rev; consumers = l } in
    let same : store_queue p q s ≡ s =
      ap (λ (g : Ptr → Option Queue). record s { queues = g })
        (sym (update_self s.queues p q at)) in
    elim (Bool-cases (asks_consumers p bs)) [
      | inr no_list ↦ (bare none, rw (at, no_list) refl, refl, refl)
      | inl list ↦
          let x : QueueResult = bare (some (keys q.consumers.order)) in
          (
            x,
            rw (at, list, traverse_same q.consumers k.table k.idle) (ap (λ t. ok (x, t)) same),
            refl,
            refl,
          )
    ]

-- The entry for a message's queue, which is there or is put in.
entry_lem :
    {base : Ptr → ℕ} {s : Ins} (bs : List Binder) (p : Ptr) (q : Queue) (acc : List QueueResult)
    → Inv base s
    → s.queues p ≡ some q
    → (acc' : List QueueResult) × (entry bs p q.q_id acc s ≡ ok (acc', s))
      × (has_result q.q_id acc' ≡ true)
      × ((id : Text) → messages_of id acc' ≡ messages_of id acc)
unfolding entry
entry_lem bs p q acc v at = elim (Bool-cases (has_result q.q_id acc)) [
  | inl there ↦ rw there (acc, refl, there, λ id. refl)
  | inr new ↦
      let (x, run, named, bare) = open_result_lem bs p q v at in
      rw new (
        acc ++ x ∷ [],
        rw run refl,
        rw (sym named) (has_new x acc),
        λ id. new_result_lem id x acc bare,
      )
]

result_loop_lem :
    {base : Ptr → ℕ} {s : Ins} (bs : List Binder) (rs : List MsgRef) (ts : List (Text × Text))
    (acc : List QueueResult)
    → Inv base s
    → Named s rs ts
    → (acc' : List QueueResult) × (result_loop bs rs acc s ≡ ok (acc', s))
      × ((id : Text) → messages_of id acc' ≡ messages_of id acc ++ bodies_of id ts)
unfolding result_loop
result_loop_lem bs [] [] acc v n = (acc, refl, λ id. sym (append-nil (messages_of id acc)))
result_loop_lem bs [] (t ∷ ts) acc v n = absurd n
result_loop_lem bs (r ∷ rs) [] acc v n = absurd n
result_loop_lem bs (r ∷ rs) (t ∷ ts) acc v ((q, m, at, there, e), n) =
    let (acc₁, run, has, same) = entry_lem bs r.memqueue q acc v at in
    let acc₂ = add_message q.q_id m.body acc₁ in
    let (acc', rest, all) = result_loop_lem bs rs ts acc₂ v n in
    (
      acc',
      rw (at, there, run) rest,
      λ id.
          all id
          ∙ ap (λ l. l ++ bodies_of id ts) (add_message_lem id q.q_id m.body acc₁ has)
          ∙ ap (λ l. (l ++ (if str_eq id q.q_id then m.body ∷ [] else [])) ++ bodies_of id ts)
              (same id)
          ∙ put_in (str_eq id q.q_id) (messages_of id acc) (bodies_of id ts) m.body
          ∙ ap (λ x. messages_of id acc ++ bodies_of id (x ∷ ts)) (sym e),
    )

-- In a state in order, for a client whose pending messages are there, the result is built and nothing
-- changes; for each queue's name it has the bodies of the pending messages of that name, in the order
-- in which they are pending.
pub memqueue_create_result_lem :
    {base : Ptr → ℕ} {s : Ins} (c : Ptr) (b : CliBinder) (ts : List (Text × Text))
    → Inv base s
    → s.clis c ≡ some b
    → Named s b.pending_msgs ts
    → (rs : List QueueResult) × (memqueue_create_result c s ≡ ok (rs, s))
      × ((id : Text) → messages_of id rs ≡ bodies_of id ts)
unfolding memqueue_create_result
memqueue_create_result_lem c b ts v at n =
    let (rs, run, all) = result_loop_lem b.memqueues b.pending_msgs ts [] v n in
    (rs, rw at run, all)
