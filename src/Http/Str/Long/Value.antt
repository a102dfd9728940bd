-- ===== src/Http/Str/Long/Value.antt =====
-- What `http_strtol` of src/http_str.c reads.
use memqueue.Base.{
  ℕ, ◌+◌, ◌*◌, ◌/◌, ◌%◌, ◌≡◌, ◌≢◌, ◌≤◌, ◌<◌, arith, Option-cases, ne_==, ap, ==_iff, ◌∙◌, refl,
  Bool, true, false, ◌&&◌, ◌||◌, List, [], ◌∷◌, ◌++◌, none, some, Text, get_or, leb, ltb, ◌==◌,
  if◌then◌else◌, Bool-cases, inl, inr,
}
use native.Mathlib.Nat.{div-add-mod', mul-le-mul_left, mul-le-mul_right, suc-mul, mod-lt}
use memqueue.Base.Int.{pos, negsuc, ltb_ℤ}
use memqueue.Http.Str.{is_digit, is_al, is_al_cap, is_hex, is_space}
use memqueue.Http.Str.Long.{
  long_max, strtol_digit, skip_space, exceeds, strtol_loop, strtol_result, strtol_number,
  strtol_prefix, strtol_sign, http_strtol,
}

ended :
    (neg : Bool) (acc : ℕ)
    → strtol_result neg (negsuc 0, acc) ≡ (if neg then negsuc long_max else pos long_max)
unfolding strtol_result
ended true acc = refl
ended false acc = refl

-- Once a number is too large it stays so.
too_large :
    (neg : Bool) (base : ℕ) (s : Text) (acc : ℕ)
    → strtol_result neg (strtol_loop neg base s (negsuc 0) acc)
      ≡ (if neg then negsuc long_max else pos long_max)
unfolding strtol_loop strtol_result
too_large true base [] acc = refl
too_large false base [] acc = refl
too_large neg base (c ∷ cs) acc = elim (Option-cases (strtol_digit c)) [
  | inl none_here ↦ rw (strtol_loop, none_here) (ended neg acc)
  | inr (d, digit) ↦ elim (Bool-cases (leb base d)) [
    | inl beyond ↦ rw (strtol_loop, digit, beyond) (ended neg acc)
    | inr within ↦ rw (strtol_loop, digit, within) (too_large neg base cs acc)
  ]
]

after_minus : (c : ℕ) (cs : Text) → skip_space (45 ∷ c ∷ cs) ≡ 45 ∷ c ∷ cs
unfolding skip_space is_space
after_minus c [] = refl
after_minus c (d ∷ cs) = refl

module _ (base c d : ℕ) (cs : Text) (low : 2 ≤ base) (high : base ≤ 36)
    (digit : strtol_digit c ≡ some d) (within : d < base) where
  negative_number : strtol_number true base (c ∷ cs) ≡ negsuc long_max
  unfolding strtol_number exceeds
  negative_number =
      let some_base : (base == 0) ≡ false = ne_== base 0 (λ e. omega (arith, e, low)) in
      let fits : (ltb base 2 || ltb 36 base) ≡ false = ground (arith, low, high) in
      let below : leb base d ≡ false = ground (arith, within) in
      let first : strtol_loop true base (c ∷ cs) (pos 0) 0 ≡ strtol_loop true base cs (negsuc 0) 0 =
        rw (strtol_loop, digit, below) refl in
      rw (some_base, fits) (ap (strtol_result true) first ∙ too_large true base cs 0)

-- A minus sign and then a digit of the base, which is from 2 to 36 and not 16, are read as `LONG_MIN`,
-- whatever follows.
http_strtol-negative :
    (beyond : Text) (base c d : ℕ) (cs : Text)
    → 2 ≤ base
    → base ≤ 36
    → base ≢ 16
    → strtol_digit c ≡ some d
    → d < base
    → http_strtol beyond (45 ∷ c ∷ cs) base ≡ negsuc long_max
unfolding http_strtol strtol_sign strtol_prefix
http_strtol-negative beyond base c d cs low high other digit within =
    let plain : ((base == 0) || (base == 16)) ≡ false =
      rw (ne_== base 0 (λ e. omega (arith, e, low)), ne_== base 16 other) refl in
    ap (strtol_sign beyond base) (after_minus c cs)
    ∙ rw plain (negative_number base c d cs low high digit within)

-- The byte of a digit in a base up to 36, its letter a capital or not.
abbrev pub digit_byte : Bool → ℕ → ℕ
digit_byte capital d = if ltb d 10 then 48 + d else (if capital then 55 + d else 87 + d)

digit_byte_lem : (capital : Bool) (d : ℕ) → d < 36 → strtol_digit (digit_byte capital d) ≡ some d
unfolding strtol_digit is_digit is_al is_al_cap
digit_byte_lem true d l = ground (arith, l)
digit_byte_lem false d l = ground (arith, l)

-- The digits as bytes, each with whether its letter is a capital, and the number that they stand for
-- after `acc`.
abbrev pub printed_in : List (Bool × ℕ) → Text
printed_in [] = []
printed_in ((k, d) ∷ ds) = digit_byte k d ∷ printed_in ds

abbrev pub value_in : ℕ → ℕ → List (Bool × ℕ) → ℕ
value_in base acc [] = acc
value_in base acc ((k, d) ∷ ds) = value_in base (acc * base + d) ds

abbrev pub AllBelow : ℕ → List (Bool × ℕ) → Type 0
AllBelow base [] = Unit
AllBelow base ((k, d) ∷ ds) = (d < base) × AllBelow base ds

-- A digit that leaves the number a `long` passes the test against `cutoff` and `cutlim`.
exceeds_fits :
    (base acc d : ℕ) → 2 ≤ base → acc * base + d ≤ long_max → exceeds false base acc d ≡ false
unfolding exceeds
exceeds_fits base acc d low fits =
    let whole = div-add-mod' long_max base in
    let small : long_max / base < acc → ⊥ = λ less. omega (
      arith,
      whole,
      fits,
      mul-le-mul_right base less,
      suc-mul (long_max / base) base,
      mod-lt long_max {m = base} (omega (arith, low)),
    ) in
    let last : acc ≡ long_max / base → d ≤ long_max % base =
      λ e. omega (arith, whole, fits, ap (λ x. x * base) e) in
    elim (Bool-cases (ltb (long_max / base) acc)) [
      | inl more ↦ absurd (small (ground (arith, more)))
      | inr enough ↦ elim (Bool-cases (acc == long_max / base)) [
        | inl hit ↦ rw (enough, hit) (ground (arith, last ((==_iff acc (long_max / base)).0 hit)))
        | inr miss ↦ rw (enough, miss) refl
      ]
    ]

-- What ends a number: nothing, or a byte that is no digit and no letter.
abbrev pub Ends : Text → Type 0
Ends [] = Unit
Ends (c ∷ cs) = strtol_digit c ≡ none

first_byte : (capital : Bool) (d : ℕ) → d < 36 → d ≢ 0 → 48 < digit_byte capital d
first_byte true d l n = ground (arith, l, n)
first_byte false d l n = ground (arith, l, n)

skip_none : (c : ℕ) (cs : Text) → 48 < c → skip_space (c ∷ cs) ≡ c ∷ cs
unfolding skip_space is_space
skip_none c [] l = refl
skip_none c (d ∷ []) l = refl
skip_none c (d ∷ e ∷ cs) l = rw (ne_== c 32 (λ x. omega (arith, x, l))) refl

not_below : (k : ℕ) → ltb_ℤ (pos k) (pos 0) ≡ false
not_below k = ground arith

and_false : (a b : Bool) {c : Bool} → c ≡ false → (a && b && c) ≡ false
and_false false b e = refl
and_false true false e = refl
and_false true true e = e

module _ (base : ℕ) (low : 2 ≤ base) (high : base ≤ 36) where
  value_ge : (acc : ℕ) (ds : List (Bool × ℕ)) → acc ≤ value_in base acc ds
  value_ge acc [] = omega arith
  value_ge acc ((_, d) ∷ ds) =
      let more : 1 ≤ base = omega (arith, low) in
      omega (arith, value_ge (acc * base + d) ds, mul-le-mul_left acc more)

  ends_lem :
      (rest : Text) (k acc : ℕ) → Ends rest → strtol_loop false base rest (pos k) acc ≡ (pos k, acc)
  unfolding strtol_loop
  ends_lem [] k acc stop = refl
  ends_lem (c ∷ cs) k acc stop = rw (strtol_loop, stop) refl

  loop_value :
      (rest : Text) (ds : List (Bool × ℕ)) (k acc : ℕ)
      → Ends rest
      → AllBelow base ds
      → value_in base acc ds ≤ long_max
      → strtol_result false (strtol_loop false base (printed_in ds ++ rest) (pos k) acc)
        ≡ pos (value_in base acc ds)
  unfolding strtol_loop strtol_result
  loop_value rest [] k acc stop below room = rw (ends_lem rest k acc stop, not_below k) refl
  loop_value rest ((letter, d) ∷ ds) k acc stop (less, below) room =
      let digit = digit_byte_lem letter d (omega (arith, less, high)) in
      let within : leb base d ≡ false = ground (arith, less) in
      let fits = exceeds_fits base acc d low (omega (arith, value_ge (acc * base + d) ds, room)) in
      rw (strtol_loop, digit, within, not_below k, fits)
        (loop_value rest ds 1 (acc * base + d) stop below room)

-- Digits of a base from 2 to 36, their letters capitals or not, the first of them not 0, that stand for a number up to `LONG_MAX` and are
-- followed by nothing, or by a byte that is no digit and no letter, are read as that number.
pub http_strtol_lem :
    (beyond rest : Text) (base d : ℕ) (capital : Bool) (ds : List (Bool × ℕ))
    → 2 ≤ base
    → base ≤ 36
    → d ≢ 0
    → AllBelow base ((capital, d) ∷ ds)
    → Ends rest
    → value_in base 0 ((capital, d) ∷ ds) ≤ long_max
    → http_strtol beyond (printed_in ((capital, d) ∷ ds) ++ rest) base
      ≡ pos (value_in base 0 ((capital, d) ∷ ds))
unfolding http_strtol strtol_sign strtol_prefix strtol_number
http_strtol_lem beyond rest base d capital ds low high n below stop room =
    let c = digit_byte capital d in
    let big = first_byte capital d (omega (arith, below, high)) n in
    let digits = printed_in ds ++ rest in
    let no_minus : (c == 45) ≡ false = ne_== c 45 (λ x. omega (arith, x, big)) in
    let no_plus : (c == 43) ≡ false = ne_== c 43 (λ x. omega (arith, x, big)) in
    let no_zero : (c == 48) ≡ false = ne_== c 48 (λ x. omega (arith, x, big)) in
    let some_base : (base == 0) ≡ false = ne_== base 0 (λ e. omega (arith, e, low)) in
    let fits : (ltb base 2 || ltb 36 base) ≡ false = ground (arith, low, high) in
    let plain =
      and_false ((base == 0) || (base == 16)) (is_hex (get_or (digits ++ beyond) 0 0)) no_zero in
    let number : strtol_number false base (c ∷ digits) ≡ pos (value_in base 0 ((capital, d) ∷ ds)) =
      rw (strtol_number, some_base, fits)
        (loop_value base low high rest ((capital, d) ∷ ds) 0 0 stop below room) in
    let prefix : strtol_prefix beyond false base (c ∷ digits)
        ≡ strtol_number false base (c ∷ digits) =
      rw (strtol_prefix, plain) refl in
    let sign : strtol_sign beyond base (c ∷ digits) ≡ strtol_prefix beyond false base (c ∷ digits) =
      rw (strtol_sign, no_minus, no_plus) refl in
    ap (strtol_sign beyond base) (skip_none c digits big) ∙ sign ∙ prefix ∙ number
