-- ===== src/Http/Request/Scan.antt =====
-- The scans of src/http_parser.c over a header's buffer: runs of bytes that pass a test.
use memqueue.Base.{
  ℕ, zero, suc, ◌+◌, Bool, true, false, [], ◌∷◌, ◌++◌, Text, length, set, ◌==◌, ◌≡◌, refl, ap, sym,
  ◌∙◌, arith,
}
use memqueue.Http.Request.{drop, take, run_length, skip}

-- Every byte passes the test.
abbrev pub AllPass : (ℕ → Bool) → Text → Type 0
AllPass test [] = Unit
AllPass test (c ∷ cs) = (test c ≡ true) × AllPass test cs

drop_nil : (n : ℕ) → drop n [] ≡ []
drop_nil zero = refl
drop_nil (suc n) = refl

drop-drop : (a b : ℕ) (xs : Text) → drop (a + b) xs ≡ drop b (drop a xs)
drop-drop zero b xs = ap (λ n. drop n xs) {y = b} (omega arith)
drop-drop (suc a) b [] = drop_nil (suc a + b) ∙ sym (drop_nil b)
drop-drop (suc a) b (x ∷ xs) =
    ap (λ n. drop n (x ∷ xs)) {y = suc (a + b)} (omega arith) ∙ drop-drop a b xs

pub drop-append : (xs ys : Text) → drop (length xs) (xs ++ ys) ≡ ys
drop-append [] ys = refl
drop-append (x ∷ xs) ys = drop-append xs ys

pub take-append : (xs ys : Text) → take (length xs) (xs ++ ys) ≡ xs
take-append [] ys = refl
take-append (x ∷ xs) ys = ap (λ t. x ∷ t) (take-append xs ys)

pub drop-set : (n : ℕ) (xs : Text) (v : ℕ) → drop (suc n) (set xs n v) ≡ drop (suc n) xs
drop-set zero [] v = refl
drop-set zero (x ∷ xs) v = refl
drop-set (suc n) [] v = refl
drop-set (suc n) (x ∷ xs) v = drop-set n xs v

run_length-append :
    (test : ℕ → Bool) (xs : Text) (y : ℕ) (zs : Text)
    → AllPass test xs
    → test y ≡ false
    → run_length test (xs ++ y ∷ zs) ≡ length xs
unfolding run_length
run_length-append test [] y zs a e = rw e refl
run_length-append test (x ∷ xs) y zs (p, a) e = rw p (ap suc (run_length-append test xs y zs a e))

-- Where the bytes from `p` on are `mid`, then `y` and the rest.
module _ (hdr : Text) (p : ℕ) (mid : Text) (y : ℕ) (rest : Text) where
  pub skip_lem :
      (test : ℕ → Bool)
      → drop p hdr ≡ mid ++ y ∷ rest
      → AllPass test mid
      → test y ≡ false
      → skip test hdr p ≡ p + length mid
  unfolding skip
  skip_lem test d a e = rw (skip, d) (ap (λ n. p + n) (run_length-append test mid y rest a e))

  pub drop_past : drop p hdr ≡ mid ++ y ∷ rest → drop (p + length mid) hdr ≡ y ∷ rest
  drop_past d = drop-drop p (length mid) hdr ∙ ap (drop (length mid)) d ∙ drop-append mid (y ∷ rest)

pub not_at_end :
    (hdr : Text) (p y : ℕ) (rest : Text) → drop p hdr ≡ y ∷ rest → (p == length hdr) ≡ false
not_at_end [] zero y rest d = cc
not_at_end [] (suc p) y rest d = cc
not_at_end (x ∷ xs) zero y rest d = ground arith
not_at_end (x ∷ xs) (suc p) y rest d = ground (arith, not_at_end xs p y rest d)
