-- ===== src/Http/Str/Number.antt =====
-- src/http_str.c: `http_strtol2`.
use memqueue.Base.{
  ℕ, ◌+◌, ◌-◌, ◌*◌, ◌^◌, ◌≤◌, ◌<◌, ◌≡◌, refl, ◌∙◌, Bool, true, false, List, [], ◌∷◌, ◌++◌, Text,
  Run, ok, fault, overflow, ◌>>=◌, leb, ltb, ◌==◌, if◌then◌else◌, arith,
}
use memqueue.Base.Int.{ℤ, pos, negsuc, pos_part, neg_part, ltb_ℤ}

-- `a - b`
abbrev pub minus : ℕ → ℕ → ℤ
minus a b = if leb b a then pos (a - b) else negsuc (b - a - 1)

-- A result of `int` arithmetic.
abbrev pub in_int : ℤ → Run ℤ
in_int (pos n) = if ltb n (2 ^ 31) then ok (pos n) else fault overflow
in_int (negsuc n) = if ltb n (2 ^ 31) then ok (negsuc n) else fault overflow

-- `c - '0'` for a signed byte
abbrev pub digit_value : ℕ → ℤ
digit_value c = if ltb c 128 then minus c 48 else negsuc (256 - c + 47)

-- The rest of the loop on the value `i`, where a digit is added or, for a negative number, taken off.
-- `k` is computed before the digit is looked at.
unfoldable pub strtol2_loop : Bool → Text → ℤ → Run ℤ
strtol2_loop negative [] i = ok i
strtol2_loop negative (c ∷ cs) i = do
  let j = digit_value c
  let rest = strtol2_loop negative cs
  k ← in_int (minus (10 * pos_part i) (10 * neg_part i))
  if ltb_ℤ (pos 9) j then ok i else (do
    i' ← in_int (
        if negative
        then minus (pos_part k + neg_part j) (neg_part k + pos_part j)
        else minus (pos_part k + pos_part j) (neg_part k + neg_part j))
    rest i')

-- `s` is the first `len` bytes.
unfoldable pub http_strtol2 : Text → Run ℤ
unfolding strtol2_loop
http_strtol2 [] = ok (pos 0)
http_strtol2 (c ∷ cs) =
    if c == 45 then strtol2_loop true cs (pos 0) else strtol2_loop false (c ∷ cs) (pos 0)

-- The number that digits stand for, after `acc`.
abbrev pub value : ℕ → List ℕ → ℕ
value acc [] = acc
value acc (d ∷ ds) = value (10 * acc + d) ds

-- The digits as bytes.
abbrev pub printed : List ℕ → Text
printed [] = []
printed (d ∷ ds) = (48 + d) ∷ printed ds

abbrev pub AllDigits : List ℕ → Type 0
AllDigits [] = Unit
AllDigits (d ∷ ds) = (d ≤ 9) × AllDigits ds

-- What may stand after the digits of `n`: nothing, or a byte above the digits, where ten times the
-- number is an `int` as well.
abbrev pub Stops : ℕ → Text → Type 0
Stops n [] = Unit
Stops n (c ∷ cs) = (57 < c) × (c < 128) × (10 * n < 2 ^ 31)

value_le : (acc : ℕ) (ds : List ℕ) → acc ≤ value acc ds
value_le acc [] = omega arith
value_le acc (d ∷ ds) = omega (arith, value_le (10 * acc + d) ds)

in_int_pos : (n : ℕ) → n < 2 ^ 31 → in_int (minus n 0) ≡ ok (pos n)
in_int_pos n l = ground (arith, l)

digit_lem : (d : ℕ) → d ≤ 9 → digit_value (48 + d) ≡ pos d
digit_lem d l = ground (arith, l)

loop-Stops : (n : ℕ) (rest : Text) → Stops n rest → strtol2_loop false rest (pos n) ≡ ok (pos n)
unfolding strtol2_loop
loop-Stops n [] s = refl
loop-Stops n (c ∷ cs) (above, signed, room) =
    let j : digit_value c ≡ pos (c - 48) = ground (arith, above, signed) in
    let b : ltb_ℤ (pos 9) (pos (c - 48)) ≡ true = ground (arith, above) in
    rw (in_int_pos (10 * n) room, j, b) refl

loop_digits :
    (ds : List ℕ) (rest : Text) (acc : ℕ)
    → AllDigits ds
    → Stops (value acc ds) rest
    → value acc ds < 2 ^ 31
    → strtol2_loop false (printed ds ++ rest) (pos acc) ≡ ok (pos (value acc ds))
unfolding strtol2_loop
loop_digits [] rest acc a s l = loop-Stops acc rest s
loop_digits (d ∷ ds) rest acc (small, a) s l =
    let le = value_le (10 * acc + d) ds in
    let x = in_int_pos (10 * acc) (omega (arith, l, le)) in
    let y : in_int (minus (10 * acc + d) (0 + 0)) ≡ ok (pos (10 * acc + d)) =
      in_int_pos (10 * acc + d) (omega (arith, l, le)) in
    let z : ltb_ℤ (pos 9) (pos d) ≡ false = ground (arith, small) in
    let tail = loop_digits ds rest (10 * acc + d) a s l in rw (x, digit_lem d small, z, y) tail

neg_parts : (n : ℕ) → (pos_part (minus 0 n) ≡ 0) × (neg_part (minus 0 n) ≡ n)
neg_parts n = (ground arith, ground arith)

in_int_neg : (n : ℕ) → n ≤ 2 ^ 31 → in_int (minus 0 n) ≡ ok (minus 0 n)
in_int_neg n l = ground (arith, l)

-- One round on a number below 0 and a digit.
round_neg :
    (acc d : ℕ) (cs : Text)
    → d ≤ 9
    → 10 * acc + d ≤ 2 ^ 31
    → strtol2_loop true ((48 + d) ∷ cs) (minus 0 acc)
      ≡ strtol2_loop true cs (minus 0 (10 * acc + d))
unfolding strtol2_loop
round_neg acc d cs small l =
    let (p, q) = neg_parts acc in
    let (p', q') = neg_parts (10 * acc) in
    let k : in_int (minus (10 * pos_part (minus 0 acc)) (10 * neg_part (minus 0 acc)))
        ≡ ok (minus 0 (10 * acc)) =
      rw (p, q) (in_int_neg (10 * acc) (omega (arith, l))) in
    let i : in_int (
          minus (pos_part (minus 0 (10 * acc)) + neg_part (pos d))
            (neg_part (minus 0 (10 * acc)) + pos_part (pos d)))
        ≡ ok (minus 0 (10 * acc + d)) =
      rw (p', q') (in_int_neg (10 * acc + d) l) in
    let z : ltb_ℤ (pos 9) (pos d) ≡ false = ground (arith, small) in
    rw (k, digit_lem d small, z, i) refl

loop_neg-Stops :
    (n : ℕ) (rest : Text) → Stops n rest → strtol2_loop true rest (minus 0 n) ≡ ok (minus 0 n)
unfolding strtol2_loop
loop_neg-Stops n [] s = refl
loop_neg-Stops n (c ∷ cs) (above, signed, room) =
    let (p, q) = neg_parts n in
    let k : in_int (minus (10 * pos_part (minus 0 n)) (10 * neg_part (minus 0 n)))
        ≡ ok (minus 0 (10 * n)) =
      rw (p, q) (in_int_neg (10 * n) (omega (arith, room))) in
    let j : digit_value c ≡ pos (c - 48) = ground (arith, above, signed) in
    let b : ltb_ℤ (pos 9) (pos (c - 48)) ≡ true = ground (arith, above) in rw (k, j, b) refl

loop_digits_neg :
    (ds : List ℕ) (rest : Text) (acc : ℕ)
    → AllDigits ds
    → Stops (value acc ds) rest
    → value acc ds ≤ 2 ^ 31
    → strtol2_loop true (printed ds ++ rest) (minus 0 acc) ≡ ok (minus 0 (value acc ds))
loop_digits_neg [] rest acc a s l = loop_neg-Stops acc rest s
loop_digits_neg (d ∷ ds) rest acc (small, a) s l =
    round_neg acc d (printed ds ++ rest) small (omega (arith, l, value_le (10 * acc + d) ds))
    ∙ loop_digits_neg ds rest (10 * acc + d) a s l

not_sign : (d : ℕ) → (48 + d == 45) ≡ false
not_sign d = ground arith

-- Digits that stand for a number below 2^31, after a minus sign or none, are read as that number, if
-- nothing follows them, or a byte above the digits and below 128 where ten times the number is below
-- 2^31 as well.
pub http_strtol2_lem :
    (d : ℕ) (ds : List ℕ) (rest : Text)
    → AllDigits (d ∷ ds)
    → Stops (value 0 (d ∷ ds)) rest
    → value 0 (d ∷ ds) < 2 ^ 31
    → (http_strtol2 (printed (d ∷ ds) ++ rest) ≡ ok (pos (value 0 (d ∷ ds))))
      × (http_strtol2 (45 ∷ printed (d ∷ ds) ++ rest) ≡ ok (minus 0 (value 0 (d ∷ ds))))
unfolding http_strtol2
http_strtol2_lem d ds rest a s l = (
  rw (not_sign d) (loop_digits (d ∷ ds) rest 0 a s l),
  loop_digits_neg (d ∷ ds) rest 0 a s (omega (arith, l)),
)
