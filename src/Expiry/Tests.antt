-- ===== src/Expiry/Tests.antt =====
-- A tree with three deadlines, which the theorems on src/memqueue_expiry.c are tried on.
use memqueue.Base.{ℕ, ◌≡◌, refl, [], ◌∷◌, ok, none, arith}
use memqueue.Expiry.{ExpiryNode, Tree, leaf, node, to_list, rb_search, rb_link}
use memqueue.Expiry.Search.{Between, insert, rb_link-total, rb_link-to_list}

-- A node with one object.
abbrev at : ℕ → ℕ → ExpiryNode ℕ
at i d = record { node_id = i; msecs = d; objs = i ∷ [] }

abbrev three : Tree ℕ
three = node (node leaf (at 1 10) leaf) (at 2 20) (node leaf (at 3 30) leaf)

three-Between : Between 0 100 (to_list three)
three-Between =
    (omega arith, omega arith, (omega arith, omega arith, (omega arith, omega arith, omega arith)))

not_there : rb_search three 25 ≡ none
unfolding rb_search
not_there = refl

rb_link-total_example : (t : Tree ℕ) × (rb_link three (at 4 25) ≡ ok t)
rb_link-total_example = rb_link-total three (at 4 25) not_there

abbrev four : Tree ℕ
four = node (node leaf (at 1 10) leaf) (at 2 20) (node (node leaf (at 4 25) leaf) (at 3 30) leaf)

linked : rb_link three (at 4 25) ≡ ok four
unfolding rb_link
linked = refl

rb_link-to_list_example : to_list four ≡ insert (at 4 25) (to_list three)
rb_link-to_list_example = rb_link-to_list three four (at 4 25) 0 100 three-Between linked
