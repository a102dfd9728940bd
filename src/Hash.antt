-- ===== src/Hash.antt =====
-- src/hash.c and src/hash.h: a chained table that keeps the order of insertion beside its buckets.
-- An item stands by value in its bucket and in the order list; no code changes an item in place.
-- `order_next` names the item that it points to by its key, which is unique in the table.
pub mod Chain
pub mod Lookup
pub mod Remove
pub mod Traverse
mod Tests
use memqueue.Base.{
  ℕ, zero, suc, ◌+◌, ◌-◌, ◌%◌, ◌^◌, List, [], ◌∷◌, ◌++◌, Option, none, some, Text, str_eq, length,
  get_or, set, replicate, ltb, if◌then◌else◌, Run, ok, fault, use_after_free, out_of_fuel, ◌>>=◌,
}
use memqueue.Base.Int.{ℤ, pos, negsuc}
use mathlib.Core.List.{head?}
use mathlib.Core.Option
use Chain.{Item, find, erase}

pub record Hash {ℓ} (V : Type ℓ) : Type ℓ where
  pub buckets : List (List (Item V))
  pub order : List (Item V)
  pub size : ℕ
  pub order_next : Option Text

-- `char` is signed: a byte from 128 on stands for itself less 256, here as a `uint32_t`.
unfoldable pub char_value : ℕ → ℕ
char_value c = if ltb c 128 then c else c + (2 ^ 32 - 256)

hash_loop : ℕ → Text → ℕ
hash_loop hash [] = hash
hash_loop hash (c ∷ cs) = hash_loop ((hash + char_value c) % 2 ^ 32) cs

unfoldable pub h_hash_func : Text → ℕ
unfolding hash_loop char_value
h_hash_func key = hash_loop 0 key

module _ {ℓ} {V : Type ℓ} where
  unfoldable pub h_init : ℕ → Hash V
  h_init size = record { buckets = replicate size []; order = []; size = size; order_next = none }

  -- The index of a key's bucket.
  unfoldable pub slot : Hash V → Text → ℕ
  unfolding h_hash_func
  slot h key = h_hash_func key % h.size

  unfoldable pub bucket : Hash V → Text → List (Item V)
  unfolding slot
  bucket h key = get_or h.buckets (slot h key) []

  unfoldable pub h_get : Hash V → Text → Option V
  unfolding bucket find
  h_get h key = Option.map (λ x. x.value) (find key (bucket h key))

  -- The result is 0, or -1 with the table as it was.
  unfoldable pub h_insert : Hash V → Text → V → Hash V × ℤ
  unfolding bucket slot find
  h_insert h key value =
      let item : Item V = record { key = key; value = value } in
      elim (find key (bucket h key)) [
        | some _ ↦ (h, negsuc 0)
        | none ↦ (
          record h {
            buckets = set h.buckets (slot h key) (item ∷ bucket h key);
            order = h.order ++ item ∷ [];
          },
          pos 0,
        )
      ]

  unfoldable pub h_remove : Hash V → Text → Hash V × ℤ
  unfolding bucket slot find erase
  h_remove h key = elim (find key (bucket h key)) [
    | none ↦ (h, negsuc 0)
    | some _ ↦ (
      record h {
        buckets = set h.buckets (slot h key) (erase key (bucket h key));
        order = erase key h.order;
      },
      pos 0,
    )
  ]

  unfoldable pub h_init_traverse : Hash V → Hash V
  h_init_traverse h = record h { order_next = none }

  -- `TAILQ_NEXT` of the item with the key; an item that is gone is a dangling pointer.
  unfoldable pub tailq_next : Text → List (Item V) → Run (Option (Item V))
  tailq_next k [] = fault use_after_free
  tailq_next k (x ∷ xs) = if str_eq k x.key then ok (head? xs) else tailq_next k xs

  unfoldable pub advance : Hash V → Option (Item V) → Run (Option (Item V) × Hash V)
  advance h next = ok (next, record h { order_next = Option.map (λ x. x.key) next })

  unfoldable pub h_next : Hash V → Run (Option (Item V) × Hash V)
  unfolding tailq_next advance
  h_next h = elim h.order_next [
    | none ↦ advance h (head? h.order)
    | some k ↦ tailq_next k h.order >>= advance h
  ]

  -- `while ((item = h_next(h)))`: the items that the loop's body sees, and the table afterwards.
  unfoldable pub traverse_loop : ℕ → Hash V → Run (List (Item V) × Hash V)
  traverse_loop zero h = fault out_of_fuel
  traverse_loop (suc f) h = do
    (next, h') ← h_next h
    elim next [
      | none ↦ ok ([], h')
      | some x ↦ do (rest, h'') ← traverse_loop f h'; ok (x ∷ rest, h'')
    ]

  -- One round for each item, and one that finds the end.
  unfoldable pub traverse : Hash V → Run (List (Item V) × Hash V)
  unfolding traverse_loop h_next
  traverse h = traverse_loop (length h.order + 1) h
