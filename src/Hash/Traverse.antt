-- ===== src/Hash/Traverse.antt =====
-- The loops `while ((item = h_next(h)))` over a table of src/hash.c.
use mathlib.Core.List.{append_assoc}
use memqueue.Base.{
  ℕ, zero, suc, ◌+◌, ◌≤◌, ◌<◌, ◌≡◌, refl, ap, sym, ◌∙◌, if◌then◌else◌, List, [], ◌∷◌, ◌++◌, none,
  some, Text, str_eq, str_eq_refl, length, ok, arith,
}
use memqueue.Hash.Chain.{Item, count, count-append}
use memqueue.Hash.{Hash, h_next, tailq_next, traverse_loop, traverse, h_init_traverse}
use memqueue.Hash.Lookup.{IsValid}
use mathlib.Core.List.{head?}
use mathlib.Core.Option

module _ {ℓ} {V : Type ℓ} where
  -- The successor of an item whose key stands nowhere before it.
  tailq_next-append :
      (pre : List (Item V)) (x : Item V) (post : List (Item V))
      → count x.key pre ≡ 0
      → tailq_next x.key (pre ++ x ∷ post) ≡ ok (head? post)
  unfolding tailq_next count
  tailq_next-append [] x post e = rw (str_eq_refl x.key)
  tailq_next-append (y ∷ pre) x post e = ground (arith, tailq_next-append pre x post)

  unique_before :
      (order pre : List (Item V)) (x : Item V) (post : List (Item V))
      → order ≡ pre ++ x ∷ post
      → ((k : Text) → count k order ≤ 1)
      → count x.key pre ≡ 0
  unfolding count
  unique_before order pre x post e once =
      omega (arith, once x.key, ap (count x.key) e, count-append x.key pre (x ∷ post), str_eq_one x)
    where
      str_eq_one : (y : Item V) → (if str_eq y.key y.key then 1 else 0) ≡ ◌+◌ 1 0
      str_eq_one y = rw (str_eq_refl y.key)

  h_next-append :
      (h : Hash V) (pre : List (Item V)) (x : Item V) (post : List (Item V))
      → h.order ≡ pre ++ x ∷ post
      → h.order_next ≡ some x.key
      → ((k : Text) → count k h.order ≤ 1)
      → h_next h ≡ ok (head? post, record h { order_next = Option.map (λ y. y.key) (head? post) })
  unfolding h_next
  h_next-append h pre x post eo en once =
      rw (h_next, en)
        (simp (eo, tailq_next-append pre x post (unique_before h.order pre x post eo once)))

  -- With the cursor on `x`, the loop sees what stands behind `x`, and leaves no cursor.
  traverse_loop-append :
      (f : ℕ) (h : Hash V) (pre : List (Item V)) (x : Item V) (post : List (Item V))
      → h.order ≡ pre ++ x ∷ post
      → h.order_next ≡ some x.key
      → ((k : Text) → count k h.order ≤ 1)
      → length post < f
      → traverse_loop f h ≡ ok (post, h_init_traverse h)
  unfolding traverse_loop h_init_traverse
  traverse_loop-append zero h pre x post eo en once l = absurd (omega arith)
  traverse_loop-append (suc f) h pre x [] eo en once l = rw (h_next-append h pre x [] eo en once)
  traverse_loop-append (suc f) h pre x (y ∷ post) eo en once l = rw (
    h_next-append h pre x (y ∷ post) eo en once,
    traverse_loop-append f (record h { order_next = some y.key }) (pre ++ x ∷ []) y post
        (eo ∙ sym (append_assoc pre (x ∷ []) (y ∷ post))) refl once (omega arith),
  )

  h_next-none :
      (h : Hash V)
      → h.order_next ≡ none
      → h_next h
        ≡ ok (head? h.order, record h { order_next = Option.map (λ y. y.key) (head? h.order) })
  unfolding h_next
  h_next-none h e = rw (h_next, e)

  traverse_loop-start :
      (f : ℕ) (h : Hash V) (xs : List (Item V))
      → h.order ≡ xs
      → h.order_next ≡ none
      → ((k : Text) → count k h.order ≤ 1)
      → length xs < f
      → traverse_loop f h ≡ ok (xs, h_init_traverse h)
  unfolding traverse_loop h_init_traverse
  traverse_loop-start zero h xs eo en once l = absurd (omega arith)
  traverse_loop-start (suc f) h [] eo en once l = rw (h_next-none h en) (simp eo)
  traverse_loop-start (suc f) h (x ∷ xs) eo en once l = rw (h_next-none h en) (
      simp (
        eo,
        traverse_loop-append f (record h { order = x ∷ xs; order_next = some x.key }) [] x xs refl
            refl (λ k. rw (← eo) (once k)) (omega arith),
      ))

  -- In a table that is in order and that no traversal is under way in, the loop ends, its body sees
  -- every item once, in the order of insertion, and the table is left ready for the next one.
  pub traverse-order :
      (h : Hash V) → IsValid h → h.order_next ≡ none → traverse h ≡ ok (h.order, h_init_traverse h)
  unfolding traverse
  traverse-order h v e =
      traverse_loop-start (length h.order + 1) h h.order refl e v.once (omega arith)

pub traverse_same {ℓ} :
    {V : Type ℓ} (h : Hash V) → IsValid h → h.order_next ≡ none → traverse h ≡ ok (h.order, h)
unfolding h_init_traverse
traverse_same h v e = traverse-order h v e ∙ λ i. ok (h.order, record h { order_next = sym e i })
