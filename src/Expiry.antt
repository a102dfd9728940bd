-- ===== src/Expiry.antt =====
-- src/memqueue_expiry.c: the deadline trees. A node of a tree holds the objects with one deadline,
-- in the order of their `LIST_ENTRY`s. The search and the insertion walk are the file's own; the
-- red-black routines `rb_insert_color` and `rb_erase` are those of the Linux kernel's library, and
-- stand here as the parameter `RbTree`, with what their callers rely on.
pub mod Plain
pub mod Search
mod Tests
use memqueue.Base.{
  ℕ, ◌+◌, ◌≡◌, Bool, true, false, List, [], ◌∷◌, ◌++◌, Option, none, some, ltb, ◌==◌, if◌then◌else◌,
  Run, ok, fault, assertion, ◌>>=◌,
}

-- `struct expiry_node`, told apart by the address `node_id`. A node is in one tree, so that one of
-- its three lists is in use.
pub record ExpiryNode {ℓ} (A : Type ℓ) : Type ℓ where
  pub node_id : ℕ
  pub msecs : ℕ
  pub objs : List A

pub data Tree {ℓ} (A : Type ℓ) : Type ℓ where
  leaf : Tree A
  node : Tree A → ExpiryNode A → Tree A → Tree A

module _ {ℓ} {A : Type ℓ} where
  -- The nodes from left to right.
  abbrev pub to_list : Tree A → List (ExpiryNode A)
  to_list leaf = []
  to_list (node l n r) = to_list l ++ n ∷ to_list r

  -- `to_list` without the node at an address.
  unfoldable pub drop_node : ℕ → List (ExpiryNode A) → List (ExpiryNode A)
  drop_node i [] = []
  drop_node i (n ∷ ns) = if n.node_id == i then ns else n ∷ drop_node i ns

  unfoldable pub find_node : ℕ → List (ExpiryNode A) → Option (ExpiryNode A)
  find_node i [] = none
  find_node i (n ∷ ns) = if n.node_id == i then some n else find_node i ns

  unfoldable pub rb_search : Tree A → ℕ → Option (ExpiryNode A)
  rb_search leaf msecs = none
  rb_search (node l n r) msecs =
      let left = rb_search l msecs in
      let right = rb_search r msecs in
      if ltb msecs n.msecs then left else (if ltb n.msecs msecs then right else some n)

  -- The walk of `rb_insert` and `rb_link_node`; a deadline that is there already fails the assert.
  unfoldable pub rb_link : Tree A → ExpiryNode A → Run (Tree A)
  rb_link leaf x = ok (node leaf x leaf)
  rb_link (node l n r) x =
      let left = (do l' ← rb_link l x; ok (node l' n r)) in
      let right = (do r' ← rb_link r x; ok (node l n r')) in
      if ltb x.msecs n.msecs then left else (if ltb n.msecs x.msecs then right else fault assertion)

  -- A write to the object lists of the nodes, in place.
  unfoldable pub map_objs : (ExpiryNode A → List A) → Tree A → Tree A
  map_objs f leaf = leaf
  map_objs f (node l n r) = node (map_objs f l) (record n { objs = f n }) (map_objs f r)

  -- `LIST_INSERT_HEAD` into the node at an address.
  unfoldable pub insert_head : ℕ → A → Tree A → Tree A
  insert_head i a = map_objs (λ n. if n.node_id == i then a ∷ n.objs else n.objs)

  -- The leftmost node: `while (node) node = node->rb_left`.
  unfoldable pub leftmost : Tree A → Option (ExpiryNode A)
  leftmost leaf = none
  leftmost (node leaf n r) = some n
  leftmost (node (node ll m lr) n r) = leftmost (node ll m lr)

-- The red-black library. Both routines change the shape and the colours of the tree; what stands in
-- it, from left to right, is that of before, without the erased node.
pub record RbTree {ℓ} (A : Type ℓ) : Type ℓ where
  pub insert_color : ℕ → Tree A → Tree A
  pub rb_erase : ℕ → Tree A → Tree A
  pub insert_color-to_list : (i : ℕ) (t : Tree A) → to_list (insert_color i t) ≡ to_list t
  pub rb_erase-to_list : (i : ℕ) (t : Tree A) → to_list (rb_erase i t) ≡ drop_node i (to_list t)
