-- ===== src/Memqueue/Invariant.antt =====
-- When the state of src/memqueue.c is in order between two operations.
pub mod Release
pub mod Retain
pub mod Notify
pub mod Deadlines
pub mod Timed
pub mod Rescheduled
pub mod Create
pub mod Added
pub mod Full
pub mod Room
pub mod Post
pub mod View
pub mod Delete
pub mod Bind
pub mod Unbind
pub mod Open
pub mod Enqueue
use mathlib.Core.Path.{fun_ext}
use memqueue.Base.{
  ℕ, ◌+◌, ◌≤◌, ◌<◌, ◌≡◌, ◌≢◌, refl, ap, ◌∙◌, true, List, [], ◌∷◌, Option, none, some, Text, ◌==◌,
  ==_iff, Bool-cases, if◌then◌else◌, inl, inr, arith, Run, ok,
}
use memqueue.Hash.{h_get}
use memqueue.Hash.Lookup.{IsValid}
use memqueue.Memqueue.Types.{Ptr, Queue, Binder, CliBinder, Ins, update, store_queue}
use memqueue.Memqueue.Refs.Counts.{QueueOk}

-- Every binder of a list belongs to a client that is there.
abbrev pub Live : (Ptr → Option CliBinder) → List Binder → Type 0
Live clis [] = Unit {0}
Live clis (b ∷ bs) = ((c : CliBinder) × (clis b.cli_binder ≡ some c)) × Live clis bs

pub record Inv (base : Ptr → ℕ) (s : Ins) : Type 0 where
  pub queue : (p : Ptr) (q : Queue) → s.queues p ≡ some q → QueueOk (base p) q
  pub live : (p : Ptr) (q : Queue) → s.queues p ≡ some q → Live s.clis q.memqueue_binders
  pub fresh : (p : Ptr) → s.next_ptr ≤ p → (s.queues p ≡ none) × (s.clis p ≡ none)
  pub table : IsValid s.queue_store
  pub stored :
      (id : Text) (p : Ptr)
      → h_get s.queue_store id ≡ some p
      → (q : Queue) × (s.queues p ≡ some q) × (q.q_id ≡ id)

-- An operation that returns, and keeps the invariant.
abbrev pub Keeps : (Ptr → ℕ) → Run Ins → Type 0
Keeps base r = (s' : Ins) × (r ≡ ok s') × Inv base s'

module _ {ℓ} {A : Type ℓ} where
  pub update_at : (f : Ptr → Option A) (p : Ptr) (c : Option A) → update f p c p ≡ c
  update_at f p c = rw ((==_iff p p).1 refl)

  pub update-update :
      (f : Ptr → Option A) (p : Ptr) (c d : Option A) → update (update f p c) p d ≡ update f p d
  update-update f p c d = fun_ext λ a. elim (Bool-cases (a == p)) [ inl e ↦ rw e | inr e ↦ rw e ]

pub ==_refl : (p : ℕ) → (p == p) ≡ true
==_refl p = (==_iff p p).1 refl

-- Of two writes to one queue the later one stands.
pub store_queue-store_queue :
    (p : Ptr) (q q' : Queue) (s : Ins) → store_queue p q (store_queue p q' s) ≡ store_queue p q s
store_queue-store_queue p q q' s =
    ap (λ (f : Ptr → Option Queue). record s { queues = f })
      (update-update s.queues p (some q') (some q))

module _ {base : Ptr → ℕ} {s : Ins} (v : Inv base s) (p : Ptr) (q q' : Queue)
    (at : s.queues p ≡ some q) where
  -- A queue may be replaced by one in order, under the same name.
  pub store_queue-Inv :
      QueueOk (base p) q'
      → Live s.clis q'.memqueue_binders
      → q'.q_id ≡ q.q_id
      → Inv base (store_queue p q' s)
  store_queue-Inv ok' live' same = record {
    queue = λ a x e. ground (arith, v.queue a x, ok');
    live = λ a x e. ground (arith, v.live a x, live');
    fresh = λ a l. ground (arith, v.fresh a l, v.fresh p);
    table = v.table;
    stored = λ id a e.
        let (x, there, named) = v.stored id a e in
        elim (Bool-cases (a == p)) [
          | inl hit ↦ (q', rw hit, ground (arith, there, named, same))
          | inr miss ↦ (x, rw miss there, named)
        ];
  }

-- What else changes of a state is not spoken of.
pub same-Inv :
    {base : Ptr → ℕ} {s s' : Ins}
    → Inv base s
    → s'.queues ≡ s.queues
    → s'.clis ≡ s.clis
    → s'.queue_store ≡ s.queue_store
    → s.next_ptr ≤ s'.next_ptr
    → Inv base s'
same-Inv v queues clis store next_ptr = record {
  queue = rw queues v.queue;
  live = rw (queues, clis) v.live;
  fresh = rw (queues, clis) (λ p l. v.fresh p (omega (arith, next_ptr)));
  table = rw store v.table;
  stored = rw (store, queues) v.stored;
}

pub update_self {ℓ} :
    {A : Type ℓ} (f : Ptr → Option A) (p : Ptr) (a : A) → f p ≡ some a → f ≡ update f p (some a)
update_self f p a e = fun_ext λ x. elim (Bool-cases (x == p)) [
  | inl hit ↦ rw hit (ap f ((==_iff x p).0 hit) ∙ e)
  | inr miss ↦ rw miss
]
