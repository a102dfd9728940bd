-- ===== src/Memqueue/Refs/Lists.antt =====
-- The message list of a queue: how its references and its revisions add up.
use memqueue.Base.{ℕ, ◌+◌, ◌≤◌, ◌<◌, ◌≡◌, List, [], ◌∷◌, ◌++◌, some, length, arith, refl}
use memqueue.Memqueue.Types.{Msg}
use memqueue.Memqueue.Refs.{find_msg, set_msg, erase_msg}

-- The references that the messages of a list are held by, all told.
unfoldable pub refs : List Msg → ℕ
refs [] = 0
refs (m ∷ ms) = m.ref_count + refs ms

-- The revisions grow along the list, and lie above the first bound and not above the second.
abbrev pub RevsIn : ℕ → ℕ → List Msg → Type 0
RevsIn lo hi [] = lo ≤ hi
RevsIn lo hi (m ∷ ms) = (lo < m.rev) × RevsIn m.rev hi ms

pub refs-append : (ms ns : List Msg) → refs (ms ++ ns) ≡ refs ms + refs ns
unfolding refs
refs-append [] ns = omega arith
refs-append (m ∷ ms) ns = omega (arith, refs-append ms ns)

pub RevsIn-append :
    (lo hi : ℕ) (ms : List Msg) (m : Msg)
    → RevsIn lo hi ms
    → hi < m.rev
    → RevsIn lo m.rev (ms ++ m ∷ [])
RevsIn-append lo hi [] m r h = (omega arith, omega arith)
RevsIn-append lo hi (x ∷ ms) m r h = (r.0, RevsIn-append x.rev hi ms m r.1 h)

pub RevsIn-mono : (lo lo' hi : ℕ) (ms : List Msg) → lo ≤ lo' → RevsIn lo' hi ms → RevsIn lo hi ms
RevsIn-mono lo lo' hi [] l r = omega arith
RevsIn-mono lo lo' hi (x ∷ ms) l r = (omega arith, r.1)

module _ (i : ℕ) (m : Msg) where
  pub refs-set :
      (m' : Msg) (ms : List Msg)
      → find_msg i ms ≡ some m
      → refs (set_msg i m' ms) + m.ref_count ≡ refs ms + m'.ref_count
  unfolding refs set_msg find_msg
  refs-set m' [] e = ground arith
  refs-set m' (x ∷ ms) e = ground (arith, refs-set m' ms)

  pub length-set_msg : (m' : Msg) (ms : List Msg) → length (set_msg i m' ms) ≡ length ms
  unfolding set_msg
  length-set_msg m' [] = refl
  length-set_msg m' (x ∷ ms) = ground (arith, length-set_msg m' ms)

  pub RevsIn-set :
      (m' : Msg) (lo hi : ℕ) (ms : List Msg)
      → find_msg i ms ≡ some m
      → m'.rev ≡ m.rev
      → RevsIn lo hi ms
      → RevsIn lo hi (set_msg i m' ms)
  unfolding set_msg find_msg
  RevsIn-set m' lo hi [] e same r = ground arith
  RevsIn-set m' lo hi (x ∷ ms) e same r = ground (arith, RevsIn-set m' x.rev hi ms)

  pub refs-erase :
      (ms : List Msg) → find_msg i ms ≡ some m → refs (erase_msg i ms) + m.ref_count ≡ refs ms
  unfolding refs erase_msg find_msg
  refs-erase [] e = ground arith
  refs-erase (x ∷ ms) e = ground (arith, refs-erase ms)

  pub length-erase_msg :
      (ms : List Msg) → find_msg i ms ≡ some m → length (erase_msg i ms) + 1 ≡ length ms
  unfolding erase_msg find_msg
  length-erase_msg [] e = ground arith
  length-erase_msg (x ∷ ms) e = ground (arith, length-erase_msg ms)

  pub RevsIn-erase : (lo hi : ℕ) (ms : List Msg) → RevsIn lo hi ms → RevsIn lo hi (erase_msg i ms)
  unfolding erase_msg
  RevsIn-erase lo hi [] r = r
  RevsIn-erase lo hi (x ∷ ms) r =
      ground (arith, RevsIn-erase x.rev hi ms, RevsIn-mono lo x.rev hi ms)
