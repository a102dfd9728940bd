-- ===== src/Memqueue/Steps/Ended.antt =====
-- The end of a poll: what follows the response in `memqueue_poll_queue` of src/memqueue.c.
use memqueue.Base.{
  ℕ, ◌≤◌, ◌≡◌, ◌≢◌, refl, ap, ◌∙◌, List, [], ◌∷◌, Option, none, some, ◌==◌, Bool-cases, inl, inr,
  arith, ok, ==_iff, ne_==,
}
use memqueue.Memqueue.Types.{Ptr, Queue, Binder, CliBinder, Ins, update}
use memqueue.Memqueue.Poll.{poll_end}
use memqueue.Memqueue.Invariant.{Live, Inv, update_at}
use memqueue.Memqueue.Ledger.{occurs, pending_of, owed, Ledger}
use memqueue.Memqueue.Ledger.Sums.{total_but}
use memqueue.Memqueue.Ledger.Kept.{unbind-Ledger}
use memqueue.Memqueue.Ledger.Taken.{below_next}
use memqueue.Memqueue.Ledger.Released.{cli_binder_release_pending_msgs-Ledger}
use memqueue.Memqueue.Links.{of_client, of_queue, binders_of, Links}
use memqueue.Memqueue.Links.Kept.{SameBinders-Links}
use memqueue.Memqueue.Links.Same.{flush-SameBinders}
use memqueue.Memqueue.Links.Made.{all_listed}
use memqueue.Memqueue.Links.Unbound.{Bound, memqueue_unbind_all-Links}
use memqueue.Memqueue.Steps.Kept.{unbind-Inv}

-- A state that is in order, in which the references are counted right and the binders are linked.
pub record Sound (base : Ptr → ℕ) (held : Ptr → ℕ → ℕ) (s : Ins) : Type 0 where
  pub inv : Inv base s
  pub ledger : Ledger held s
  pub links : Links s

module _ (c : Ptr) where
  -- Clients of whom a list has a binder are none of those that go.
  Live-without :
      (clis : Ptr → Option CliBinder) (bs : List Binder)
      → ((a : Ptr) → of_client c a bs ≡ 0)
      → Live clis bs
      → Live (update clis c none) bs
  unfolding of_client
  Live-without clis [] z l = tt
  Live-without clis (b ∷ bs) z ((d, there), l) = (
    elim (Bool-cases (b.cli_binder == c)) [
      | inl mine ↦ absurd (ground (arith, z b.address, mine))
      | inr other ↦ (d, rw other there)
    ],
    Live-without clis bs (λ a. omega (arith, z a)) l,
  )

  module _ {base : Ptr → ℕ} {held : Ptr → ℕ → ℕ} {s : Ins} (v : Sound base held s) (b : CliBinder)
      (there : s.clis c ≡ some b) (unbound : b.memqueues ≡ []) (empty : b.pending_msgs ≡ []) where
    abbrev freed : Ins
    freed = record s { clis = update s.clis c none }

    no_binder :
        (p : Ptr) (q : Queue)
        → s.queues p ≡ some q
        → (a : Ptr) → of_client c a q.memqueue_binders ≡ 0
    unfolding of_queue
    no_binder p q at a =
        let listed = all_listed p q v.links at c a in
        let nothing : of_queue p a (binders_of (s.clis c)) ≡ 0 =
          ap (λ o. of_queue p a (binders_of o)) there ∙ ap (of_queue p a) unbound in
        omega (arith, listed, nothing)

    freed-owed : (p i : ℕ) → owed freed p i ≡ owed s p i
    freed-owed p i =
        let f : Ptr → ℕ = λ a. pending_of (freed.clis a) p i in
        let g : Ptr → ℕ = λ a. pending_of (s.clis a) p i in
        let after : f c ≡ 0 = ap (λ o. pending_of o p i) (update_at s.clis c none) in
        let before : g c ≡ 0 = ap (λ o. pending_of o p i) there ∙ ap (λ rs. occurs rs p i) empty in
        let others : (a : Ptr) → a ≢ c → f a ≡ g a = λ a n. rw (ne_== a c n) refl in
        omega
          (arith, total_but f g c s.next_ptr (below_next c b v.ledger there) others, after, before)

    freed_fresh : (x : Ptr) → s.next_ptr ≤ x → freed.clis x ≡ none
    freed_fresh x k = elim (Bool-cases (x == c)) [
      | inl hit ↦ rw hit refl
      | inr miss ↦ rw miss (v.ledger.fresh x k)
    ]

    freed-binders : (x : Ptr) → binders_of (freed.clis x) ≡ binders_of (s.clis x)
    freed-binders x = elim (Bool-cases (x == c)) [
      | inl hit ↦
          let here : binders_of (s.clis x) ≡ [] =
            ap (λ y. binders_of (s.clis y)) ((==_iff x c).0 hit) ∙ ap binders_of there ∙ unbound in
          rw (hit, here) refl
      | inr miss ↦ rw miss refl
    ]

    freed-Sound : Sound base held freed
    freed-Sound = record {
      inv = record {
        queue = v.inv.queue;
        live =
            λ p q at. Live-without s.clis q.memqueue_binders (no_binder p q at) (v.inv.live p q at);
        fresh = λ p l. ((v.inv.fresh p l).0, freed_fresh p l);
        table = v.inv.table;
        stored = v.inv.stored;
      };
      ledger = record {
        exact = λ p i. omega (arith, v.ledger.exact p i, freed-owed p i);
        once = v.ledger.once;
        fresh = freed_fresh;
      };
      links = record {
        linked = λ p q at x a. rw (freed-binders x) (v.links.linked p q at x a);
        once = v.links.once;
        fresh = v.links.fresh;
        fresh_clis = freed_fresh;
      };
    }

-- In a state in order, with the references counted right and the binders linked, a client all of whose
-- queues are there can end its poll: nothing faults, the client is gone, the references of everybody
-- else are still counted right and the other binders are linked.
pub poll_end_lem :
    {base : Ptr → ℕ} {held : Ptr → ℕ → ℕ} {s : Ins} (c : Ptr) (b : CliBinder)
    → Sound base held s
    → s.clis c ≡ some b
    → Bound s b.memqueues
    → (s' : Ins) × (poll_end c s ≡ ok s') × Sound base held s' × (s'.clis c ≡ none)
unfolding poll_end
poll_end_lem {base} {held} {s} c b v there bound =
    let (s₁, unbind, links₁, there₁) = memqueue_unbind_all-Links c b s v.links there bound in
    let b₁ : CliBinder = record b { memqueues = [] } in
    let (s₂, flush, inv₂, ledger₂, there₂) =
      cli_binder_release_pending_msgs-Ledger c b₁ (unbind-Inv c s s₁ unbind v.inv)
        (unbind-Ledger c s s₁ unbind v.ledger) there₁ in
    let links₂ = SameBinders-Links s₂ (flush-SameBinders c s₁ s₂ flush) links₁ in
    let v₂ : Sound base held s₂ = record { inv = inv₂; ledger = ledger₂; links = links₂ } in
    (
      record s₂ { clis = update s₂.clis c none },
      rw (unbind, flush) refl,
      freed-Sound c v₂ (record b₁ { pending_msgs = [] }) there₂ refl refl,
      update_at s₂.clis c none,
    )
