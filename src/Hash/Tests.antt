-- ===== src/Hash/Tests.antt =====
-- A table with two keys, which the theorems on src/hash.c are tried on.
use memqueue.Base.{ℕ, ◌≡◌, refl, none, some, Text, codes, str_eq, if◌then◌else◌, ok, arith}
use memqueue.Base.Int.{pos, negsuc}
use memqueue.Hash.{Hash, h_init, h_insert, h_remove, h_get, h_init_traverse, traverse}
use memqueue.Hash.Lookup.{IsValid, h_init-IsValid, h_insert-IsValid, h_insert_lem}
use memqueue.Hash.Remove.{h_remove_lem}
use memqueue.Hash.Traverse.{traverse-order}

abbrev news : Text
news = codes "news"

abbrev mail : Text
mail = codes "mail"

abbrev empty : Hash ℕ
empty = h_init 128

empty-IsValid : IsValid empty
empty-IsValid = h_init-IsValid 128 (omega arith)

abbrev one : Hash ℕ
one = (h_insert empty news 7).0

one-IsValid : IsValid one
one-IsValid = h_insert-IsValid empty empty-IsValid news 7

abbrev two : Hash ℕ
two = (h_insert one mail 9).0

two-IsValid : IsValid two
two-IsValid = h_insert-IsValid one one-IsValid mail 9

h_insert_lem_example :
    ((h_insert two news 8).1 ≡ elim (h_get two news) [ none ↦ pos 0 | some _ ↦ negsuc 0 ])
    × (h_get (h_insert two news 8).0 news ≡ (
        if str_eq news news
        then some (elim (h_get two news) [ none ↦ 8 | some u ↦ u ])
        else h_get two news))
h_insert_lem_example = h_insert_lem two two-IsValid news 8 news

h_remove_lem_example :
    (h_get (h_remove two mail).0 news ≡ (if str_eq news mail then none else h_get two news))
    × ((h_remove two mail).1 ≡ elim (h_get two mail) [ none ↦ negsuc 0 | some _ ↦ pos 0 ])
h_remove_lem_example = h_remove_lem two two-IsValid mail news

two_idle : two.order_next ≡ none
unfolding h_insert h_init str_eq
two_idle = refl

traverse-order_example : traverse two ≡ ok (two.order, h_init_traverse two)
traverse-order_example = traverse-order two two-IsValid two_idle

-- The second insertion of a key is refused.
again : (h_insert two news 8).1 ≡ negsuc 0
unfolding h_insert h_init str_eq
again = refl
