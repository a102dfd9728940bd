-- ===== src/Memqueue/Invariant/Deadlines.antt =====
-- The lists of objects of the deadlines' trees of src/memqueue_expiry.c, when every object is there.
use memqueue.Base.{
  ℕ, ◌≡◌, refl, ap, sym, List, [], ◌∷◌, ◌++◌, Option, some, Bool, true, ltb, ◌==◌, ==_iff, ◌∙◌,
  false, Bool-cases, inl, inr, arith,
}
use memqueue.Expiry.{
  ExpiryNode, Tree, leaf, node, to_list, drop_node, find_node, map_objs, rb_search,
}
use memqueue.Memqueue.Types.{Ptr, Queue, RbTrees, is_there}
use memqueue.Memqueue.Sched.{first_there, head_there, near_there, can_remove, remove_ptr}

module _ {A : Type 0} (f : ExpiryNode A → List A) where
  -- The objects of every node replaced, in a list.
  abbrev pub with_objs : List (ExpiryNode A) → List (ExpiryNode A)
  with_objs [] = []
  with_objs (n ∷ ns) = record n { objs = f n } ∷ with_objs ns

  with_objs-append :
      (ns ms : List (ExpiryNode A)) → with_objs (ns ++ ms) ≡ with_objs ns ++ with_objs ms
  with_objs-append [] ms = refl
  with_objs-append (n ∷ ns) ms = ap (λ l. record n { objs = f n } ∷ l) (with_objs-append ns ms)

  pub to_list-map_objs : (t : Tree A) → to_list (map_objs f t) ≡ with_objs (to_list t)
  unfolding map_objs
  to_list-map_objs leaf = refl
  to_list-map_objs (node l n r) =
      rw (to_list-map_objs l, to_list-map_objs r)
        (sym (with_objs-append (to_list l) (n ∷ to_list r)))

  pub find_node-with_objs :
      (i : ℕ) (n : ExpiryNode A) (ns : List (ExpiryNode A))
      → find_node i ns ≡ some n
      → find_node i (with_objs ns) ≡ some (record n { objs = f n })
  unfolding find_node
  find_node-with_objs i n [] e = ground arith
  find_node-with_objs i n (x ∷ ns) e = ground (arith, find_node-with_objs i n ns)

module _ (there : Ptr → Bool) where
  abbrev ThereIn : List Ptr → Type 0
  ThereIn [] = Unit
  ThereIn (x ∷ xs) = (there x ≡ true) × ThereIn xs

  -- Every object of the nodes is there.
  abbrev pub AllThere : List (ExpiryNode Ptr) → Type 0
  AllThere [] = Unit
  AllThere (n ∷ ns) = ThereIn n.objs × AllThere ns

  first_there_lem : (xs : List Ptr) → ThereIn xs → first_there there xs ≡ true
  first_there_lem [] a = refl
  first_there_lem (x ∷ xs) a = a.0

  near_there_lem : (p : Ptr) (xs : List Ptr) → ThereIn xs → near_there there p xs ≡ true
  unfolding near_there
  near_there_lem p [] a = refl
  near_there_lem p (x ∷ []) a = refl
  near_there_lem p (x ∷ y ∷ ys) (a, (b, c)) = elim (Bool-cases (x == p)) [
    | inl first ↦ rw first b
    | inr later ↦ elim (Bool-cases (y == p)) [
      | inl second ↦ rw (later, second, a) (first_there_lem ys c)
      | inr other ↦ rw (later, other) (near_there_lem p (y ∷ ys) (b, c))
    ]
  ]

  pub can_remove_lem :
      (p : Ptr) (ns : List (ExpiryNode Ptr)) → AllThere ns → can_remove there p ns ≡ true
  unfolding can_remove
  can_remove_lem p [] a = refl
  can_remove_lem p (n ∷ ns) (a, b) = rw (near_there_lem p n.objs a) (can_remove_lem p ns b)

  append_left : (ns ms : List (ExpiryNode Ptr)) → AllThere (ns ++ ms) → AllThere ns
  append_left [] ms a = tt
  append_left (n ∷ ns) ms (a, b) = (a, append_left ns ms b)

  append_right : (ns ms : List (ExpiryNode Ptr)) → AllThere (ns ++ ms) → AllThere ms
  append_right [] ms a = a
  append_right (n ∷ ns) ms (a, b) = append_right ns ms b

  pub head_there_lem :
      (t : Tree Ptr) (d : ℕ) → AllThere (to_list t) → head_there there (rb_search t d) ≡ true
  unfolding rb_search
  head_there_lem leaf d a = refl
  head_there_lem (node l n r) d a =
      let here = append_right (to_list l) (n ∷ to_list r) a in
      elim (Bool-cases (ltb d n.msecs)) [
        | inl left ↦ rw left (head_there_lem l d (append_left (to_list l) (n ∷ to_list r) a))
        | inr not_left ↦ elim (Bool-cases (ltb n.msecs d)) [
          | inl right ↦ rw (not_left, right) (head_there_lem r d here.1)
          | inr found ↦ rw (not_left, found) (first_there_lem n.objs here.0)
        ]
      ]

  remove_ptr-ThereIn :
      (rb : RbTrees) (p : Ptr) (xs : List Ptr) → ThereIn xs → ThereIn (remove_ptr rb p xs)
  unfolding remove_ptr
  remove_ptr-ThereIn rb p [] a = tt
  remove_ptr-ThereIn rb p (x ∷ xs) (a, b) = elim (Bool-cases (x == p)) [
    | inl hit ↦ rw hit b
    | inr miss ↦ rw miss (a, remove_ptr-ThereIn rb p xs b)
  ]

  pub remove_ptr-AllThere :
      (rb : RbTrees) (p : Ptr) (ns : List (ExpiryNode Ptr))
      → AllThere ns
      → AllThere (with_objs (λ n. remove_ptr rb p n.objs) ns)
  remove_ptr-AllThere rb p [] a = tt
  remove_ptr-AllThere rb p (n ∷ ns) (a, b) =
      (remove_ptr-ThereIn rb p n.objs a, remove_ptr-AllThere rb p ns b)

  pub drop_node-AllThere :
      (i : ℕ) (ns : List (ExpiryNode Ptr)) → AllThere ns → AllThere (drop_node i ns)
  unfolding drop_node
  drop_node-AllThere i [] a = tt
  drop_node-AllThere i (n ∷ ns) (a, b) = elim (Bool-cases (n.node_id == i)) [
    | inl hit ↦ rw hit b
    | inr miss ↦ rw miss (a, drop_node-AllThere i ns b)
  ]

module _ (f g : Ptr → Bool) (kept : (x : Ptr) → f x ≡ true → g x ≡ true) where
  ThereIn-kept : (xs : List Ptr) → ThereIn f xs → ThereIn g xs
  ThereIn-kept [] a = tt
  ThereIn-kept (x ∷ xs) (a, b) = (kept x a, ThereIn-kept xs b)

  AllThere-kept : (ns : List (ExpiryNode Ptr)) → AllThere f ns → AllThere g ns
  AllThere-kept [] a = tt
  AllThere-kept (n ∷ ns) (a, b) = (ThereIn-kept n.objs a, AllThere-kept ns b)

-- Every queue whose deadline is in the tree is there.
abbrev pub QueuesThere : (Ptr → Option Queue) → Tree Ptr → Type 0
QueuesThere queues t = AllThere (λ x. is_there (queues x)) (to_list t)

-- They are there still where only the queue at `p` differs, which is there.
pub QueuesThere-kept :
    (f g : Ptr → Option Queue) (t : Tree Ptr) (p : Ptr) (q : Queue)
    → ((a : Ptr) → (a == p) ≡ false → g a ≡ f a)
    → g p ≡ some q
    → QueuesThere f t
    → QueuesThere g t
QueuesThere-kept f g t p q others at =
    AllThere-kept (λ x. is_there (f x)) (λ x. is_there (g x))
      (λ x e. elim (Bool-cases (x == p)) [
        | inl hit ↦ ap is_there (ap g ((==_iff x p).0 hit) ∙ at)
        | inr miss ↦ ap is_there (others x miss) ∙ e
      ])
      (to_list t)
