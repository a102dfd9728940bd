-- ===== src/Http/Request/Headers/Bounds.antt =====
-- What `http_parse_hdr` of src/http_parser.c writes to.
use memqueue.Base.{
  ℕ, zero, suc, ◌+◌, ◌-◌, ◌≤◌, ◌<◌, ◌≡◌, refl, ap, ◌∙◌, not, ◌&&◌, [], ◌∷◌, some, Text, length,
  length-set, get_or, set, ◌==◌, arith, Bool-cases, Option-cases, inl, inr,
}
use memqueue.Hash.{Hash}
use memqueue.Http.Str.{isspace}
use memqueue.Http.Request.{drop}
use memqueue.Http.Request.Headers.{
  Scan, c_string, string_at, index_of, lower_run, lower_from, end_hdr, parse_line, hdr_round,
  hdr_loop, http_parse_hdr,
}

-- `b` is as long as `a`, and the same from `k` on.
pub record SameFrom (k : ℕ) (a b : Text) : Type 0 where
  pub length : length b ≡ length a
  pub rest : drop k b ≡ drop k a

SameFrom-refl : (k : ℕ) (a : Text) → SameFrom k a a
SameFrom-refl k a = record { length = refl; rest = refl }

SameFrom-trans : {k : ℕ} {a b c : Text} → SameFrom k a b → SameFrom k b c → SameFrom k a c
SameFrom-trans s t = record { length = t.length ∙ s.length; rest = t.rest ∙ s.rest }

drop-set_before : (k i v : ℕ) (xs : Text) → i < k → drop k (set xs i v) ≡ drop k xs
drop-set_before zero i v xs l = absurd (omega (arith, l))
drop-set_before (suc k) i v [] l = refl
drop-set_before (suc k) zero v (x ∷ xs) l = refl
drop-set_before (suc k) (suc i) v (x ∷ xs) l = drop-set_before k i v xs (omega (arith, l))

set-SameFrom : (k i v : ℕ) (xs : Text) → i < k → SameFrom k xs (set xs i v)
set-SameFrom k i v xs l = record { length = length-set xs i v; rest = drop-set_before k i v xs l }

length-lower_run : (xs : Text) → length (lower_run xs) ≡ length xs
unfolding lower_run
length-lower_run [] = refl
length-lower_run (c ∷ cs) = ground (arith, length-lower_run cs)

drop-lower_run :
    (k j : ℕ) (xs : Text) → get_or xs j 0 ≡ 0 → j < k → drop k (lower_run xs) ≡ drop k xs
unfolding lower_run
drop-lower_run zero j xs e l = absurd (omega (arith, l))
drop-lower_run (suc k) j [] e l = refl
drop-lower_run (suc k) zero (c ∷ cs) e l = ground (arith, e)
drop-lower_run (suc k) (suc j) (c ∷ cs) e l = elim (Bool-cases (c == 0)) [
  | inl z ↦ rw z refl
  | inr z ↦ rw z (drop-lower_run k j cs e (omega (arith, l)))
]

lower_from-SameFrom :
    (k p j : ℕ) (xs : Text) → get_or xs j 0 ≡ 0 → p ≤ j → j < k → SameFrom k xs (lower_from p xs)
unfolding lower_from
lower_from-SameFrom k zero j xs e a l = record {
  length = length-lower_run xs;
  rest = drop-lower_run k j xs e l;
}
lower_from-SameFrom k (suc p) j [] e a l = SameFrom-refl k []
lower_from-SameFrom zero (suc p) j (c ∷ cs) e a l = absurd (omega (arith, l))
lower_from-SameFrom (suc k) (suc p) zero (c ∷ cs) e a l = absurd (omega (arith, a))
lower_from-SameFrom (suc k) (suc p) (suc j) (c ∷ cs) e a l =
    let s = lower_from-SameFrom k p j cs e (omega (arith, a)) (omega (arith, l)) in
    record { length = ap suc s.length; rest = s.rest }

get_or-drop : (p j : ℕ) (xs : Text) → get_or (drop p xs) j 0 ≡ get_or xs (p + j) 0
get_or-drop zero j xs = ap (λ n. get_or xs n 0) {x = j} (omega arith)
get_or-drop (suc p) j [] = refl
get_or-drop (suc p) j (x ∷ xs) =
    get_or-drop p j xs ∙ ap (λ n. get_or (x ∷ xs) n 0) {x = suc (p + j)} (omega arith)

length-c_string : (j : ℕ) (xs : Text) → get_or xs j 0 ≡ 0 → length (c_string xs) ≤ j
unfolding c_string
length-c_string j [] e = omega arith
length-c_string zero (c ∷ cs) e = ground (arith, e)
length-c_string (suc j) (c ∷ cs) e = ground (arith, length-c_string j cs e)

index_of-length : (x k : ℕ) (xs : Text) → index_of x xs ≡ some k → k < length xs
unfolding index_of
index_of-length x k [] e = ground (arith, e)
index_of-length x k (c ∷ cs) e = elim (Bool-cases (c == x)) [
  | inl z ↦ ground (arith, e, z)
  | inr z ↦ elim (Option-cases (index_of x cs)) [
    | inl n ↦ ground (arith, e, z, n)
    | inr (j, n) ↦ ground (arith, e, z, n, index_of-length x j cs n)
  ]
]

get_or-set : (xs : Text) (i j : ℕ) → get_or xs i 0 ≡ 0 → get_or (set xs j 0) i 0 ≡ 0
get_or-set [] i j e = refl
get_or-set (x ∷ xs) zero zero e = refl
get_or-set (x ∷ xs) zero (suc j) e = e
get_or-set (x ∷ xs) (suc i) zero e = e
get_or-set (x ∷ xs) (suc i) (suc j) e = get_or-set xs i j e

get_or-set_same : (xs : Text) (i : ℕ) → get_or (set xs i 0) i 0 ≡ 0
get_or-set_same [] i = refl
get_or-set_same (x ∷ xs) zero = refl
get_or-set_same (x ∷ xs) (suc i) = get_or-set_same xs i

module _ (hdr_len i : ℕ) (inside : i < hdr_len) where
  end_hdr-SameFrom :
      (hdr : Text) → SameFrom hdr_len hdr (end_hdr i hdr) × (get_or (end_hdr i hdr) i 0 ≡ 0)
  unfolding end_hdr
  end_hdr-SameFrom hdr =
      let h = set hdr i 0 in
      let s = set-SameFrom hdr_len i 0 hdr inside in
      let z = get_or-set_same hdr i in
      elim (Bool-cases (not (i == 0) && (get_or h (i - 1) 0 == 13))) [
        | inl cr ↦ rw cr (
          SameFrom-trans s (set-SameFrom hdr_len (i - 1) 0 h (omega (arith, inside))),
          get_or-set h i (i - 1) z,
        )
        | inr apart ↦ rw apart (s, z)
      ]

  parse_line-SameFrom :
      (hdr : Text) (s : Scan)
      → get_or hdr i 0 ≡ 0
      → s.start ≤ i
      → SameFrom hdr_len hdr (parse_line i hdr s).hdr × ((parse_line i hdr s).start ≡ i + 1)
  unfolding parse_line
  parse_line-SameFrom hdr s nul behind = elim (Option-cases (index_of 58 (string_at hdr s.start))) [
    | inl missing ↦ rw (parse_line, missing) (SameFrom-refl hdr_len hdr, refl)
    | inr (k, there) ↦
        let short = length-c_string (i - s.start) (drop s.start hdr) (
          get_or-drop s.start (i - s.start) hdr
          ∙ ap (λ n. get_or hdr n 0) {y = i} (omega (arith, behind))
          ∙ nul) in
        let near = index_of-length 58 k (string_at hdr s.start) there in
        let p = s.start + k in
        rw (parse_line, there)
          (
            SameFrom-trans (set-SameFrom hdr_len p 0 hdr (omega (arith, short, near, inside))) (
                lower_from-SameFrom hdr_len s.start i (set hdr p 0) (get_or-set hdr i p nul) behind
                  inside),
            refl,
          )
  ]

  hdr_round-SameFrom :
      (s : Scan)
      → s.start ≤ i
      → SameFrom hdr_len s.hdr (hdr_round hdr_len i s).hdr × ((hdr_round hdr_len i s).start ≤ i + 1)
  unfolding hdr_round
  hdr_round-SameFrom s behind = elim (Bool-cases (get_or s.hdr i 0 == 10)) [
    | inr other ↦ rw other (SameFrom-refl hdr_len s.hdr, omega (arith, behind))
    | inl eol ↦
        elim (Bool-cases (not (hdr_len - i == 0) && not (isspace (get_or s.hdr (i + 1) 0)))) [
          | inr goes_on ↦ rw (eol, goes_on) (SameFrom-refl hdr_len s.hdr, omega (arith, behind))
          | inl ends ↦
              let (a, nul) = end_hdr-SameFrom s.hdr in
              let (b, next) = parse_line-SameFrom (end_hdr i s.hdr) s nul behind in
              rw (eol, ends) (SameFrom-trans a b, omega (arith, next))
        ]
  ]

hdr_loop-SameFrom :
    (hdr_len n i : ℕ) (s : Scan)
    → s.start ≤ i
    → n + i ≤ hdr_len
    → SameFrom hdr_len s.hdr (hdr_loop hdr_len n i s).hdr
unfolding hdr_loop
hdr_loop-SameFrom hdr_len zero i s behind l = SameFrom-refl hdr_len s.hdr
hdr_loop-SameFrom hdr_len (suc n) i s behind l =
    let (a, next) = hdr_round-SameFrom hdr_len i (omega (arith, l)) s behind in
    SameFrom-trans a
      (hdr_loop-SameFrom hdr_len n (i + 1) (hdr_round hdr_len i s) next (omega (arith, l)))

-- Where the header starts within its length, the walk over its lines keeps the length of the buffer,
-- and writes to no byte after the header.
pub http_parse_hdr-SameFrom :
    (hdr_start hdr_len : ℕ) (hdr : Text) (hdrs : Hash ℕ)
    → hdr_start ≤ hdr_len
    → SameFrom hdr_len hdr (http_parse_hdr hdr_start hdr_len hdr hdrs).hdr
unfolding http_parse_hdr
http_parse_hdr-SameFrom hdr_start hdr_len hdr hdrs l =
    hdr_loop-SameFrom hdr_len (hdr_len - hdr_start) hdr_start _ (omega arith) (omega (arith, l))
