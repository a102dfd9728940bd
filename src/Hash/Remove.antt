-- ===== src/Hash/Remove.antt =====
-- The tables of src/hash.c: removals.
use memqueue.Base.{
  ◌≡◌, ◌≢◌, none, some, Text, str_eq, eq_of_str_eq, inl, inr, if◌then◌else◌, Option-cases,
  Bool-cases, arith, ap,
}
use memqueue.Base.Int.{pos, negsuc}
use memqueue.Hash.Chain.{Item, find, erase, find-erase, count-erase-le}
use memqueue.Hash.{Hash, slot, bucket, h_get, h_remove}
use memqueue.Hash.Lookup.{IsValid, replaced-IsValid, h_get-order}

module _ {ℓ} {V : Type ℓ} where
  module _ (h : Hash V) (v : IsValid h) (key : Text) where
    remove_agree :
        (k : Text)
        → slot h k ≡ slot h key
        → find k (erase key (bucket h key)) ≡ find k (erase key h.order)
    unfolding bucket
    remove_agree k p =
        rw
          (
            find-erase k key (bucket h key) (v.once_bucket key (slot h key)),
            find-erase k key h.order (v.once key),
            ← v.agree k,
          )
          (rw p)

    remove_other : (k : Text) → slot h k ≢ slot h key → find k h.order ≡ find k (erase key h.order)
    remove_other k n =
        rw (find-erase k key h.order (v.once key)) (elim (Bool-cases (str_eq k key)) [
          | inl e ↦ absurd (n (ap (slot h) (eq_of_str_eq k key e)))
          | inr e ↦ rw e
        ])

    -- A removal keeps the table in order, on both of its branches.
    pub h_remove-IsValid : IsValid (h_remove h key).0
    unfolding h_remove bucket slot
    h_remove-IsValid = elim (Option-cases (find key (bucket h key))) [
      | inl e ↦ rw (h_remove, e) v
      | inr (x, e) ↦
          rw (h_remove, e)
            (replaced-IsValid h v key _ _ remove_agree remove_other
              (λ k. omega (arith, count-erase-le k key h.order, v.once k))
              (λ k.
                omega (arith, count-erase-le k key (bucket h key), v.once_bucket k (slot h key))))
    ]

    remove_absent :
        (q : Text)
        → find key (bucket h key) ≡ none
        → h_get (h_remove h key).0 q ≡ (if str_eq q key then none else h_get h q)
    unfolding h_remove h_get
    remove_absent q e =
        rw (h_remove, e)
          (elim (Bool-cases (str_eq q key)) [
            | inl same ↦ rw (same, eq_of_str_eq q key same, h_get, e)
            | inr differs ↦ rw differs
          ])

    remove_present :
        (q : Text) (x : Item V)
        → find key (bucket h key) ≡ some x
        → h_get (h_remove h key).0 q ≡ (if str_eq q key then none else h_get h q)
    unfolding h_remove
    remove_present q x e =
        rw
          (
            h_get-order (h_remove h key).0 q h_remove-IsValid,
            h_get-order h q v,
            h_remove,
            e,
            find-erase q key h.order (v.once key),
          )
          (elim (Bool-cases (str_eq q key)) [ inl e ↦ rw e | inr e ↦ rw e ])

    -- The key is gone afterwards and every other key reads as before; the result is 0 where the
    -- key was there, and -1 where it was not.
    pub h_remove_lem :
        (q : Text)
        → (h_get (h_remove h key).0 q ≡ (if str_eq q key then none else h_get h q))
          × ((h_remove h key).1 ≡ elim (h_get h key) [ none ↦ negsuc 0 | some _ ↦ pos 0 ])
    unfolding h_remove h_get
    h_remove_lem q = elim (Option-cases (find key (bucket h key))) [
      | inl e ↦ (remove_absent q e, rw (h_remove, h_get, e))
      | inr (x, e) ↦ (remove_present q x e, rw (h_remove, h_get, e))
    ]
