-- ===== src/Memqueue/Args/Places.antt =====
-- The places of a poll's arguments: `args_memqueue_poll_populate` of src/args_parser.c.
use memqueue.Base.{not, ◌&&◌, ℕ, zero, suc, ◌+◌, Bool, true, List, [], ◌∷◌, none, Text}
use memqueue.Base.Int.{ℤ}
use memqueue.Hash.{Hash}
use memqueue.Memqueue.Poll.{QueueArgs}
use memqueue.Memqueue.Args.{poll_entry, numbered, is_written}

module _ (atoi : Text → ℤ) (query : Hash Text) (to_decimal : ℕ → Text) where
  -- The arguments with the numbers from `i` on, `n` of them.
  abbrev pub entries_from : ℕ → ℕ → List QueueArgs
  entries_from zero i = []
  entries_from (suc n) i =
      poll_entry atoi query (numbered atoi query to_decimal i) none ∷ entries_from n (i + 1)

  -- No field is there with a number from `i` on, for `n` of them.
  abbrev pub none_written : ℕ → ℕ → Bool
  none_written zero i = true
  none_written (suc n) i = not (is_written atoi query to_decimal i) && none_written n (i + 1)
