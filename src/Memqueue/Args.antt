-- ===== src/Memqueue/Args.antt =====
-- src/args_parser.c: the arguments of a request. `atoi` and the printing of a number by `asprintf`
-- are the C library's, and are parameters.
pub mod Places
use memqueue.Base.{
  Bool, true, false, not, ◌||◌, ℕ, zero, suc, ◌+◌, ◌^◌, ◌%◌, ◌-◌, List, [], ◌∷◌, ◌++◌, Option, none,
  some, Text, codes, ltb, Run, ok, out_of_bounds, guard, ◌>>=◌, ◌>>◌,
}
use memqueue.Base.Int.{ℤ, pos, negsuc, pos_part}
use memqueue.Hash.{Hash, h_get}
use memqueue.Memqueue.Types.{is_there}
use memqueue.Memqueue.Poll.{QueueArgs, PollArgs}

-- `memqueue_create_args_t`
pub record CreateArgs : Type 0 where
  pub expiry : ℕ
  pub max_size : ℤ
  pub consumer_expiry : ℕ
  pub drop_from_head : ℤ
  pub q_id : Option Text

-- An `int` that is assigned to a `uint32_t`.
abbrev pub to_uint32 : ℤ → ℕ
to_uint32 (pos n) = n % 2 ^ 32
to_uint32 (negsuc n) = 2 ^ 32 - 1 - n % 2 ^ 32

abbrev pub int_or_zero : (Text → ℤ) → Option Text → ℤ
int_or_zero atoi none = pos 0
int_or_zero atoi (some v) = atoi v

-- `query` is the table of the query string, `path` that of the path's named groups.
module _ (atoi : Text → ℤ) (query : Hash Text) where
  unfoldable pub args_memqueue_create_populate : Option (Hash Text) → CreateArgs
  args_memqueue_create_populate path = record {
    q_id = elim path [ some h ↦ h_get h (codes "q_id") | none ↦ h_get query (codes "q_id") ];
    max_size = int_or_zero atoi (h_get query (codes "max_size"));
    consumer_expiry = to_uint32 (int_or_zero atoi (h_get query (codes "consumer_expiry")));
    expiry = to_uint32 (int_or_zero atoi (h_get query (codes "expiry")));
    drop_from_head = int_or_zero atoi (h_get query (codes "drop_from_head"));
  }

  -- `http_get_querystring` of a field, which bears the queue's number in a multiple poll.
  unfoldable pub poll_entry : (Text → Text) → Option (Hash Text) → QueueArgs
  poll_entry name path = record {
    q_id = elim path [ some h ↦ h_get h (codes "q_id") | none ↦ h_get query (name (codes "q_id")) ];
    rev = int_or_zero atoi (h_get query (name (codes "rev")));
    latest = int_or_zero atoi (h_get query (name (codes "latest")));
    consumer_id = h_get query (name (codes "consumer_id"));
    include_consumers = int_or_zero atoi (h_get query (name (codes "include_consumers")));
  }

  module _ (to_decimal : ℕ → Text) where
    -- `"%s-%d"`
    abbrev pub numbered : ℕ → Text → Text
    numbered i field = field ++ codes "-" ++ to_decimal i

    -- Whether one of the five fields with the number is there, which is then written.
    unfoldable pub is_written : ℕ → Bool
    is_written i =
        is_there (h_get query (numbered i (codes "q_id")))
        || is_there (h_get query (numbered i (codes "rev")))
        || is_there (h_get query (numbered i (codes "latest")))
        || is_there (h_get query (numbered i (codes "consumer_id")))
        || is_there (h_get query (numbered i (codes "include_consumers")))

    -- Entries from `i` on of a multiple poll. `queue_args` has 32 places; past them nothing is written
    -- where no field is there, and such an entry, whose `q_id` is none, is a fault when it is read.
    unfoldable pub poll_entries : ℕ → ℕ → Run (List QueueArgs)
    unfolding poll_entry is_written
    poll_entries zero i = ok []
    poll_entries (suc n) i = do
      guard (ltb i 32 || not (is_written i)) out_of_bounds
      rest ← poll_entries n (i + 1)
      ok (poll_entry (numbered i) none ∷ rest)

    unfoldable pub total_queues : ℕ
    total_queues = pos_part (int_or_zero atoi (h_get query (codes "total_queues")))

    unfoldable pub poll_timeout : ℕ
    poll_timeout = elim (h_get query (codes "timeout")) [
      | some v ↦ to_uint32 (atoi v)
      | none ↦ to_uint32 (negsuc 0)
    ]

    unfoldable pub args_memqueue_poll_populate : Option (Hash Text) → Run PollArgs
    unfolding poll_entries total_queues poll_timeout
    args_memqueue_poll_populate (some h) =
        ok (record { queue_args = poll_entry (λ f. f) (some h) ∷ []; timeout = poll_timeout })
    args_memqueue_poll_populate none = do
      entries ← poll_entries total_queues 0
      ok (record { queue_args = entries; timeout = poll_timeout })
