-- ===== src/Expiry/Plain.antt =====
-- A red-black library that never rebalances, for the parameter of src/memqueue_expiry.c.
use memqueue.Base.{◌≡◌, refl, List, [], ◌∷◌}
use memqueue.Expiry.{ExpiryNode, Tree, leaf, node, to_list, drop_node, RbTree}

module _ {ℓ} {A : Type ℓ} where
  -- A tree that leans to the right, with the nodes of a list.
  unfoldable pub spine : List (ExpiryNode A) → Tree A
  spine [] = leaf
  spine (n ∷ ns) = node leaf n (spine ns)

  pub to_list-spine : (ns : List (ExpiryNode A)) → to_list (spine ns) ≡ ns
  unfolding spine
  to_list-spine [] = refl
  to_list-spine (n ∷ ns) = rw (to_list-spine ns)

abbrev pub plain {ℓ} : {A : Type ℓ} → RbTree A
unfolding spine drop_node
plain = record {
  insert_color = λ i t. t;
  rb_erase = λ i t. spine (drop_node i (to_list t));
  insert_color-to_list = λ i t. refl;
  rb_erase-to_list = λ i t. to_list-spine (drop_node i (to_list t));
}
