-- ===== src/Http/Str/Search.antt =====
-- src/http_str.c: `http_strcasestr`. A read past the text, which the loops make, is 0.
use memqueue.Base.{
  ℕ, zero, suc, ◌+◌, ◌-◌, ◌≤◌, ◌<◌, ◌≡◌, ◌≢◌, refl, ap, ◌∙◌, Bool, true, Option, none, some, Text,
  Run, ok, fault, out_of_fuel, get_or, leb, ltb, ◌==◌, ◌&&◌, ◌||◌, not, if◌then◌else◌, arith,
  Bool-cases, inl, inr,
}
use memqueue.Http.Str.{upper, is_al}

abbrev pub same_letter : Text → ℕ → Text → ℕ → Bool
same_letter s1 i s2 j = upper (get_or s1 i 0) == upper (get_or s2 j 0)

-- The loop to the next first letter, from `i` on, on `n` rounds; `len + 1 - i` of them end it.
unfoldable pub to_first : ℕ → Text → Text → ℕ → ℕ → ℕ
to_first zero s1 s2 len i = i
to_first (suc n) s1 s2 len i =
    let rest = to_first n s1 s2 len (i + 1) in
    if same_letter s1 i s2 0 then i else (if leb i len then rest else i + 1)

-- The loop over the letters that match, from `j` on, of which `n` are left.
unfoldable pub match_run : ℕ → Text → Text → ℕ → ℕ → ℕ
match_run zero s1 s2 i j = j
match_run (suc n) s1 s2 i j =
    let rest = match_run n s1 s2 i (j + 1) in if same_letter s1 (i + j) s2 j then rest else j

-- The outer loop. A match that ends early is passed over as a whole.
unfoldable pub strcasestr_loop : ℕ → Text → Text → ℕ → ℕ → ℕ → Run (Option ℕ)
unfolding to_first match_run
strcasestr_loop zero s1 s2 len len2 i = fault out_of_fuel
strcasestr_loop (suc n) s1 s2 len len2 i =
    let k = to_first (len + 2 - i) s1 s2 len i in
    let j = match_run len2 s1 s2 k 0 in
    let rest = strcasestr_loop n s1 s2 len len2 (k + j) in
    if ltb len (k + len2) then ok none else (if j == len2 then ok (some k) else rest)

-- The index of the match.
unfoldable pub http_strcasestr : Text → Text → ℕ → ℕ → Run (Option ℕ)
unfolding strcasestr_loop
http_strcasestr s1 s2 len len2 = strcasestr_loop (len + 1) s1 s2 len len2 0

-- The bytes that the table of capitals names: what can be printed, the tab and the ends of line.
abbrev pub listed : ℕ → Bool
listed c = (leb 32 c && leb c 126) || (c == 9) || (c == 10) || (c == 13)

-- `a` is the capital of the letter `b`.
abbrev pub capital_of : ℕ → ℕ → Bool
capital_of a b = leb 97 b && leb b 122 && (a + 32 == b)

-- The bytes are the same, or one is the capital of the other, or the table names neither.
abbrev pub same_but_case : ℕ → ℕ → Bool
same_but_case a b =
    (a == b) || capital_of a b || capital_of b a || (not (listed a) && not (listed b))

case_lem : (a b : ℕ) → (upper a == upper b) ≡ true → same_but_case a b ≡ true
unfolding upper is_al
case_lem a b e = ground (arith, e)

same_letter_lem :
    (s1 s2 : Text) (i j : ℕ)
    → same_letter s1 i s2 j ≡ true
    → same_but_case (get_or s1 i 0) (get_or s2 j 0) ≡ true
unfolding upper is_al
same_letter_lem s1 s2 i j e = case_lem (get_or s1 i 0) (get_or s2 j 0) e

-- The letters from `j` on, `n` of them, are the same but for their case.
abbrev pub Matches : ℕ → Text → Text → ℕ → ℕ → Type 0
Matches zero s1 s2 i j = Unit
Matches (suc n) s1 s2 i j =
    (same_but_case (get_or s1 (i + j) 0) (get_or s2 j 0) ≡ true) × Matches n s1 s2 i (j + 1)

match_run-Matches :
    (n : ℕ) (s1 s2 : Text) (i j : ℕ) → match_run n s1 s2 i j ≡ j + n → Matches n s1 s2 i j
unfolding match_run
match_run-Matches zero s1 s2 i j e = tt
match_run-Matches (suc n) s1 s2 i j e = elim (Bool-cases (same_letter s1 (i + j) s2 j)) [
  | inl same ↦ (
    same_letter_lem s1 s2 (i + j) j same,
    match_run-Matches n s1 s2 i (j + 1) (rw same at e ∙ omega arith),
  )
  | inr other ↦ absurd (omega (arith, rw other at e))
]

to_first_le : (n : ℕ) (s1 s2 : Text) (len i : ℕ) → i ≤ to_first n s1 s2 len i
unfolding to_first
to_first_le zero s1 s2 len i = omega arith
to_first_le (suc n) s1 s2 len i = elim (Bool-cases (same_letter s1 i s2 0)) [
  | inl same ↦ rw same (omega arith)
  | inr other ↦ elim (Bool-cases (leb i len)) [
    | inl on ↦ rw (other, on) (omega (arith, to_first_le n s1 s2 len (i + 1)))
    | inr off ↦ rw (other, off) (omega arith)
  ]
]

-- It stops at a first letter, or past the end.
to_first_stops :
    (n : ℕ) (s1 s2 : Text) (len i : ℕ)
    → len + 2 ≤ n + i
    → to_first n s1 s2 len i ≤ len
    → same_letter s1 (to_first n s1 s2 len i) s2 0 ≡ true
unfolding to_first
to_first_stops zero s1 s2 len i l e = absurd (omega (arith, l, e))
to_first_stops (suc n) s1 s2 len i l e = elim (Bool-cases (same_letter s1 i s2 0)) [
  | inl same ↦ rw same same
  | inr other ↦ elim (Bool-cases (leb i len)) [
    | inl on ↦
        rw (other, on) (to_first_stops n s1 s2 len (i + 1) (omega (arith, l)) (rw (other, on) at e))
    | inr off ↦ absurd (ground (arith, off, rw (other, off) at e))
  ]
]

match_run_le : (n : ℕ) (s1 s2 : Text) (i j : ℕ) → j ≤ match_run n s1 s2 i j
unfolding match_run
match_run_le zero s1 s2 i j = omega arith
match_run_le (suc n) s1 s2 i j = elim (Bool-cases (same_letter s1 (i + j) s2 j)) [
  | inl same ↦ rw same (omega (arith, match_run_le n s1 s2 i (j + 1)))
  | inr other ↦ rw other (omega arith)
]

match_run_bound : (n : ℕ) (s1 s2 : Text) (i j : ℕ) → match_run n s1 s2 i j ≤ j + n
unfolding match_run
match_run_bound zero s1 s2 i j = omega arith
match_run_bound (suc n) s1 s2 i j = elim (Bool-cases (same_letter s1 (i + j) s2 j)) [
  | inl same ↦ rw same (omega (arith, match_run_bound n s1 s2 i (j + 1)))
  | inr other ↦ rw other (omega arith)
]

match_run_some :
    (n : ℕ) (s1 s2 : Text) (i : ℕ)
    → n ≢ 0
    → same_letter s1 i s2 0 ≡ true
    → 0 < match_run n s1 s2 i 0
unfolding match_run
match_run_some zero s1 s2 i z e = absurd (z refl)
match_run_some (suc n) s1 s2 i z e =
    let e' : same_letter s1 (i + 0) s2 0 ≡ true =
      ap (λ k. same_letter s1 k s2 0) {x = i + 0} (omega arith) ∙ e in
    rw e' (omega (arith, match_run_le n s1 s2 i (0 + 1)))

-- A match within the text, or none.
abbrev pub IsMatch : Text → Text → ℕ → ℕ → Option ℕ → Type 0
IsMatch s1 s2 len len2 none = Unit
IsMatch s1 s2 len len2 (some k) = (k + len2 ≤ len) × Matches len2 s1 s2 k 0

strcasestr_loop_lem :
    (n : ℕ) (s1 s2 : Text) (len len2 i : ℕ)
    → i ≤ len
    → len + 1 ≤ n + i
    → (r : Option ℕ) × (strcasestr_loop n s1 s2 len len2 i ≡ ok r) × IsMatch s1 s2 len len2 r
unfolding strcasestr_loop
strcasestr_loop_lem zero s1 s2 len len2 i l f = absurd (omega (arith, l, f))
strcasestr_loop_lem (suc n) s1 s2 len len2 i l f =
    let k = to_first (len + 2 - i) s1 s2 len i in
    let j = match_run len2 s1 s2 k 0 in
    elim (Bool-cases (ltb len (k + len2))) [
      | inl over ↦ (none, rw over refl, tt)
      | inr within ↦
          let fits : k + len2 ≤ len = ground (arith, within) in
          elim (Bool-cases (j == len2)) [
            | inl whole ↦
                let e : j ≡ 0 + len2 = ground (arith, whole) in
                (some k, rw (within, whole) refl, (fits, match_run-Matches len2 s1 s2 k 0 e))
            | inr part ↦
                let first =
                  to_first_stops (len + 2 - i) s1 s2 len i (omega (arith, l))
                    (omega (arith, fits)) in
                let le = to_first_le (len + 2 - i) s1 s2 len i in
                let short = match_run_bound len2 s1 s2 k 0 in
                let less : j ≢ len2 = λ z. ground (arith, z, part) in
                let more = match_run_some len2 s1 s2 k (λ z. omega (arith, less, z, short)) first in
                let (r, run, m) =
                  strcasestr_loop_lem n s1 s2 len len2 (k + j) (omega (arith, fits, short))
                    (omega (arith, f, le, more)) in
                (r, rw (within, part) run, m)
          ]
    ]

-- The search ends, and an index that it returns is that of a match within the text: each byte is the
-- same as the other's, or one is the capital of the other, or the table names neither of the two. What is
-- read past a text is 0.
pub http_strcasestr-IsMatch :
    (s1 s2 : Text) (len len2 : ℕ)
    → (r : Option ℕ) × (http_strcasestr s1 s2 len len2 ≡ ok r) × IsMatch s1 s2 len len2 r
unfolding http_strcasestr
http_strcasestr-IsMatch s1 s2 len len2 =
    strcasestr_loop_lem (len + 1) s1 s2 len len2 0 (omega arith) (omega arith)
