-- ===== src/Memqueue/Invariant/Enqueue.antt =====
-- The messages that a poll is given at once: `cli_binder_enqueue_msgs` of src/memqueue.c.
use memqueue.Base.{
  Bool, zero, true, false, ltb, ◌&&◌, ◌||◌, ℕ, suc, ◌+◌, ◌≡◌, refl, ap, sym, ◌∙◌, List, [], ◌∷◌,
  ◌++◌, some, ◌==◌, Bool-cases, if◌then◌else◌, inl, inr, arith, ok, length,
}
use mathlib.Core.List.{append_assoc, append-nil}
use memqueue.Base.Int.{ℤ, pos, negsuc, ltb_ℤ}
use memqueue.Memqueue.Types.{Ptr, Msg, MsgRef, Queue, CliBinder, Ins, store_queue, store_cli}
use memqueue.Memqueue.Refs.{find_msg, set_msg}
use memqueue.Memqueue.Refs.Counts.{retained}
use memqueue.Memqueue.Poll.{is_set, is_wanted, enqueue_loop, cli_binder_enqueue_msgs}
use memqueue.Memqueue.Invariant.{Inv, update_at}
use memqueue.Memqueue.Invariant.Retain.{ref_to}
use memqueue.Memqueue.Invariant.Notify.{Holds, cli_binder_enqueue_msg_lem, retained-Holds}

-- Whether a message is above a revision, which may be -1, and whether the latest ones are asked for.
abbrev pub above : ℤ → ℕ → Bool
above (pos r) n = ltb r n
above (negsuc r) n = true

abbrev pub asks_latest : ℤ → Bool
asks_latest (pos zero) = false
asks_latest (pos (suc n)) = true
asks_latest (negsuc n) = true

-- The messages that are above the revision, or new where the latest ones are asked for.
abbrev pub wanted_refs : Ptr → ℤ → ℤ → List Msg → List MsgRef
wanted_refs p rev latest [] = []
wanted_refs p rev latest (m ∷ ms) =
    let rest = wanted_refs p rev latest ms in
    if above rev m.rev || (asks_latest latest && (m.new == 1))
    then ref_to p m.msg_id ∷ rest
    else rest

abbrev There : List Msg → ℕ → Type 0
There full i = (x : Msg) × (find_msg i full ≡ some x)

-- Each message of the second list has its number in the first.
abbrev AllThere : List Msg → List Msg → Type 0
AllThere full [] = Unit
AllThere full (m ∷ ms) = There full m.msg_id × AllThere full ms

There-cons : (y : Msg) (full : List Msg) (i : ℕ) → There full i → There (y ∷ full) i
unfolding find_msg
There-cons y full i (x, e) = elim (Bool-cases (y.msg_id == i)) [
  | inl hit ↦ (y, rw hit refl)
  | inr miss ↦ (x, rw miss e)
]

AllThere-cons : (y : Msg) (full ms : List Msg) → AllThere full ms → AllThere (y ∷ full) ms
AllThere-cons y full [] a = tt
AllThere-cons y full (m ∷ ms) a = (There-cons y full m.msg_id a.0, AllThere-cons y full ms a.1)

AllThere-refl : (ms : List Msg) → AllThere ms ms
unfolding find_msg
AllThere-refl [] = tt
AllThere-refl (m ∷ ms) = ((m, ground arith), AllThere-cons m ms ms (AllThere-refl ms))

There-set :
    (i j n : ℕ) (y : Msg) (full : List Msg)
    → find_msg i full ≡ some y
    → There full j
    → There (set_msg i (record y { ref_count = n }) full) j
unfolding find_msg set_msg
There-set i j n y [] e t = absurd cc
There-set i j n y (m ∷ ms) e (x, f) = elim (Bool-cases (m.msg_id == i)) [
  | inl hit ↦ elim (Bool-cases (m.msg_id == j)) [
    | inl same ↦ (record y { ref_count = n }, ground (arith, e, hit, same))
    | inr other ↦ (x, ground (arith, e, f, hit, other))
  ]
  | inr miss ↦ elim (Bool-cases (m.msg_id == j)) [
    | inl same ↦ (m, rw (miss, same) refl)
    | inr other ↦
        let (z, g) = There-set i j n y ms (rw miss at e) (x, rw other at f) in
        (z, rw (miss, other) g)
  ]
]

AllThere-set :
    (i n : ℕ) (y : Msg) (full ms : List Msg)
    → find_msg i full ≡ some y
    → AllThere full ms
    → AllThere (set_msg i (record y { ref_count = n }) full) ms
AllThere-set i n y full [] e a = tt
AllThere-set i n y full (m ∷ ms) e a =
    (There-set i m.msg_id n y full e a.0, AllThere-set i n y full ms e a.1)

abbrev pub handed : CliBinder → List MsgRef → CliBinder
handed b rs = record b { pending_msgs = b.pending_msgs ++ rs }

-- The outcome of the walk for the messages `rs`.
record Enqueued (base : Ptr → ℕ) (c : Ptr) (b : CliBinder) (rs : List MsgRef) (s' : Ins)
    : Type 0 where
  inv : Inv base s'
  at : s'.clis c ≡ some (handed b rs)

above_lem : (rev : ℤ) (n : ℕ) → ltb_ℤ rev (pos n) ≡ above rev n
above_lem (pos r) n = ground arith
above_lem (negsuc r) n = ground arith

asks_lem : (latest : ℤ) → is_set latest ≡ asks_latest latest
asks_lem (pos zero) = refl
asks_lem (pos (suc n)) = ground arith
asks_lem (negsuc n) = ground arith

wanted_lem :
    (rev latest : ℤ) (m : Msg)
    → is_wanted rev latest m ≡ (above rev m.rev || (asks_latest latest && (m.new == 1)))
wanted_lem rev latest m = rw (above_lem rev m.rev, asks_lem latest) refl

zero_add : (n : ℕ) → 0 + n ≡ n
zero_add n = omega arith

one_add : (n : ℕ) → 1 + n ≡ suc n
one_add n = omega arith

enqueue_loop_lem :
    {base : Ptr → ℕ} (ms : List Msg) (c p : Ptr) (rev latest : ℤ) (b : CliBinder) (q : Queue)
    (s : Ins)
    → Inv base s
    → s.queues p ≡ some q
    → s.clis c ≡ some b
    → AllThere q.msg_queue ms
    → (s' : Ins) × (enqueue_loop ms c p rev latest s
        ≡ ok (length (wanted_refs p rev latest ms), s'))
      × Enqueued base c b (wanted_refs p rev latest ms) s'
unfolding enqueue_loop
enqueue_loop_lem [] c p rev latest b q s v at there a = (
  s,
  refl,
  record {
    inv = v;
    at = there ∙ ap (λ l. some (record b { pending_msgs = l })) (sym (append-nil b.pending_msgs));
  },
)
enqueue_loop_lem {base} (m ∷ ms) c p rev latest b q s v at there a =
    let same = wanted_lem rev latest m in
    elim (Bool-cases (above rev m.rev || (asks_latest latest && (m.new == 1)))) [
      | inr skip ↦
          let (s', run, out) = enqueue_loop_lem ms c p rev latest b q s v at there a.1 in
          (s', rw (same, skip, run) (ap (λ n. ok (n, s')) (zero_add _)), rw skip out)
      | inl wanted ↦
          let i = m.msg_id in
          let (x, found) = a.0 in
          let b' = handed b (ref_to p i ∷ []) in
          let q' = retained i x q in
          let h : Holds base p i q x s = record { inv = v; at = at; found = found } in
          let h' = retained-Holds c b p i x q h there b' in
          let s₁ = store_queue p q' (store_cli c b' s) in
          let (s', run, out) =
            enqueue_loop_lem ms c p rev latest b' q' s₁ h'.inv h'.at (update_at s.clis c (some b'))
              (AllThere-set i (x.ref_count + 1) x q.msg_queue ms found a.1) in
          (
            s',
            rw (same, wanted, cli_binder_enqueue_msg_lem c b p i x q h there, run)
                (ap (λ n. ok (n, s')) (one_add _)),
            rw wanted (record {
              inv = out.inv;
              at =
                  out.at
                  ∙ ap (λ l. some (record b { pending_msgs = l }))
                      (append_assoc b.pending_msgs (ref_to p i ∷ []) (wanted_refs p rev latest ms));
            }),
          )
    ]

-- In a state in order, a client that is there is given the messages of the queue that are above the
-- revision, and where it asks for the latest ones those that are new, in the order of the queue, after
-- what it has; the result is their number, nothing faults, and the state is in order afterwards.
pub cli_binder_enqueue_msgs_lem :
    {base : Ptr → ℕ} (c p : Ptr) (rev latest : ℤ) (b : CliBinder) (q : Queue) (s : Ins)
    → Inv base s
    → s.queues p ≡ some q
    → s.clis c ≡ some b
    → (s' : Ins) × (cli_binder_enqueue_msgs c p rev latest s
        ≡ ok (length (wanted_refs p rev latest q.msg_queue), s'))
      × Inv base s'
      × (s'.clis c ≡ some (handed b (wanted_refs p rev latest q.msg_queue)))
unfolding cli_binder_enqueue_msgs
cli_binder_enqueue_msgs_lem c p rev latest b q s v at there =
    let (s', run, out) =
      enqueue_loop_lem q.msg_queue c p rev latest b q s v at there (AllThere-refl q.msg_queue) in
    (s', rw at run, out.inv, out.at)
