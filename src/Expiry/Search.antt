-- ===== src/Expiry/Search.antt =====
-- The walks of src/memqueue_expiry.c over a tree, against its nodes from left to right.
use mathlib.Core.List.{head?}
use memqueue.Base.{
  ℕ, ◌+◌, ◌≤◌, ◌<◌, ◌≡◌, refl, ◌∙◌, List, [], ◌∷◌, ◌++◌, Option, none, some, ltb, ◌==◌,
  if◌then◌else◌, ok, Bool-cases, inl, inr, arith, >>=-eq-ok, ok-injective,
}
use memqueue.Expiry.{ExpiryNode, Tree, leaf, node, to_list, rb_search, rb_link, leftmost}

-- Every deadline of a list lies between two bounds, the upper one not included, and they grow.
abbrev pub Between : {A : Type 0} → ℕ → ℕ → List (ExpiryNode A) → Type 0
Between lo hi [] = lo ≤ hi
Between lo hi (n ∷ ns) = (lo ≤ n.msecs) × (n.msecs < hi) × Between (n.msecs + 1) hi ns

module _ {A : Type 0} where
  -- The first node with a deadline.
  unfoldable pub lookup : ℕ → List (ExpiryNode A) → Option (ExpiryNode A)
  lookup d [] = none
  lookup d (n ∷ ns) = if n.msecs == d then some n else lookup d ns

  -- A list with one more node, in the order of the deadlines.
  unfoldable pub insert : ExpiryNode A → List (ExpiryNode A) → List (ExpiryNode A)
  insert x [] = x ∷ []
  insert x (n ∷ ns) = if ltb x.msecs n.msecs then x ∷ n ∷ ns else n ∷ insert x ns

  lookup_below :
      (d lo hi : ℕ) (ns : List (ExpiryNode A)) → Between lo hi ns → d < lo → lookup d ns ≡ none
  unfolding lookup
  lookup_below d lo hi [] b l = refl
  lookup_below d lo hi (n ∷ ns) b l = ground (arith, lookup_below d (n.msecs + 1) hi ns)

  Between-split :
      (lo hi : ℕ) (ns : List (ExpiryNode A)) (x : ExpiryNode A) (ms : List (ExpiryNode A))
      → Between lo hi (ns ++ x ∷ ms)
      → Between lo x.msecs ns × (lo ≤ x.msecs) × Between (x.msecs + 1) hi ms
  Between-split lo hi [] x ms b = (b.0, b.0, b.2)
  Between-split lo hi (n ∷ ns) x ms b =
      let r = Between-split (n.msecs + 1) hi ns x ms b.2 in
      ((b.0, omega arith, r.0), omega arith, r.2)

  lookup-append :
      (d lo hi : ℕ) (ns : List (ExpiryNode A)) (x : ExpiryNode A) (ms : List (ExpiryNode A))
      → Between lo hi (ns ++ x ∷ ms)
      → lookup d (ns ++ x ∷ ms)
        ≡ (if ltb d x.msecs then lookup d ns else (if ltb x.msecs d then lookup d ms else some x))
  unfolding lookup
  lookup-append d lo hi [] x ms b = ground (arith, lookup_below d (x.msecs + 1) hi ms)
  lookup-append d lo hi (n ∷ ns) x ms b =
      ground (
        arith,
        lookup-append d (n.msecs + 1) hi ns x ms,
        Between-split (n.msecs + 1) hi ns x ms b.2,
      )

  -- In a tree with growing deadlines, the search finds the node that a search of the list of the nodes
  -- finds.
  rb_search-lookup :
      (t : Tree A) (d lo hi : ℕ) → Between lo hi (to_list t) → rb_search t d ≡ lookup d (to_list t)
  unfolding rb_search lookup
  rb_search-lookup leaf d lo hi b = refl
  rb_search-lookup (node l n r) d lo hi b =
      let (bl, at, br) = Between-split lo hi (to_list l) n (to_list r) b in
      rw (
        lookup-append d lo hi (to_list l) n (to_list r) b,
        rb_search-lookup l d lo n.msecs bl,
        rb_search-lookup r d (n.msecs + 1) hi br,
      )

  -- Where the search finds no node with the deadline, the insertion walk returns, without meeting its
  -- assert.
  pub rb_link-total :
      (t : Tree A) (x : ExpiryNode A)
      → rb_search t x.msecs ≡ none
      → (t' : Tree A) × (rb_link t x ≡ ok t')
  unfolding rb_search rb_link
  rb_link-total leaf x e = (node leaf x leaf, refl)
  rb_link-total (node l n r) x e = elim (Bool-cases (ltb x.msecs n.msecs)) [
    | inl less ↦ let (l', run) = rb_link-total l x (rw less at e) in (node l' n r, rw (less, run))
    | inr more ↦ elim (Bool-cases (ltb n.msecs x.msecs)) [
      | inl greater ↦
          let (r', run) = rb_link-total r x (rw (more, greater) at e) in
          (node l n r', rw (more, greater, run))
      | inr equal ↦ absurd (ground arith)
    ]
  ]

  head-append :
      (xs : List (ExpiryNode A)) (y : ExpiryNode A) (ys zs : List (ExpiryNode A))
      → head? (xs ++ y ∷ ys) ≡ head? ((xs ++ y ∷ ys) ++ zs)
  head-append [] y ys zs = refl
  head-append (x ∷ xs) y ys zs = refl

  -- The walk to the left ends at the first node of the tree, or nowhere in an empty one.
  leftmost-to_list : (t : Tree A) → leftmost t ≡ head? (to_list t)
  unfolding leftmost
  leftmost-to_list leaf = refl
  leftmost-to_list (node leaf n r) = refl
  leftmost-to_list (node (node ll m lr) n r) =
      leftmost-to_list (node ll m lr) ∙ head-append (to_list ll) m (to_list lr) (n ∷ to_list r)

  insert-append :
      (lo hi : ℕ) (ns : List (ExpiryNode A)) (n : ExpiryNode A) (ms : List (ExpiryNode A))
      (x : ExpiryNode A)
      → Between lo hi (ns ++ n ∷ ms)
      → insert x (ns ++ n ∷ ms)
        ≡ (if ltb x.msecs n.msecs then insert x ns ++ n ∷ ms else ns ++ n ∷ insert x ms)
  unfolding insert
  insert-append lo hi [] n ms x b = ground arith
  insert-append lo hi (y ∷ ns) n ms x b = ground (
    arith,
    insert-append (y.msecs + 1) hi ns n ms x b.2,
    Between-split (y.msecs + 1) hi ns n ms b.2,
  )

  -- In a tree with growing deadlines, an insertion walk that returns puts the node where its deadline
  -- belongs in the list of the nodes.
  pub rb_link-to_list :
      (t t' : Tree A) (x : ExpiryNode A) (lo hi : ℕ)
      → Between lo hi (to_list t)
      → rb_link t x ≡ ok t'
      → to_list t' ≡ insert x (to_list t)
  unfolding rb_link insert
  rb_link-to_list leaf t' x lo hi b e = ground arith
  rb_link-to_list (node l n r) t' x lo hi b e =
      let (bl, at, br) = Between-split lo hi (to_list l) n (to_list r) b in
      rw (insert-append lo hi (to_list l) n (to_list r) x b)
        (elim (Bool-cases (ltb x.msecs n.msecs)) [
          | inl less ↦
              let (l', run, e') = >>=-eq-ok (rb_link l x) _ (rw less at e) in
              rw (less, ← ok-injective e', rb_link-to_list l l' x lo n.msecs bl run)
          | inr more ↦ elim (Bool-cases (ltb n.msecs x.msecs)) [
            | inl greater ↦
                let (r', run, e') = >>=-eq-ok (rb_link r x) _ (rw (more, greater) at e) in
                rw (more, ← ok-injective e', rb_link-to_list r r' x (n.msecs + 1) hi br run)
            | inr equal ↦ absurd (ground arith)
          ]
        ])
