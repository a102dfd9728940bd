-- ===== src/Http/Str/Long.antt =====
-- src/http_str.c: `http_strtol`. `errno` is not modelled.
pub mod Value
use memqueue.Base.{
  ℕ, ◌+◌, ◌-◌, ◌*◌, ◌/◌, ◌%◌, ◌^◌, ◌≡◌, ◌≢◌, ◌≤◌, ◌<◌, arith, Option-cases, ne_==, ap, ==_iff, ◌∙◌,
  refl, Bool, true, false, ◌&&◌, ◌||◌, List, [], ◌∷◌, ◌++◌, Option, none, some, Text, codes, length,
  get_or, leb, ltb, ◌==◌, if◌then◌else◌, Bool-cases, inl, inr,
}
use memqueue.Base.Int.{ℤ, pos, negsuc, ltb_ℤ}
use memqueue.Http.Request.{drop}
use memqueue.Http.Str.{is_digit, is_al, is_al_cap, is_hex, is_space}
use memqueue.Http.Str.Number.{minus}

-- `LONG_MAX`
abbrev pub long_max : ℕ
long_max = 2 ^ 63 - 1

-- The value of a digit or a letter.
unfoldable pub strtol_digit : ℕ → Option ℕ
unfolding is_digit is_al is_al_cap
strtol_digit c =
    if is_digit c
    then some (c - 48)
    else (if is_al_cap c then some (c - 55) else (if is_al c then some (c - 87) else none))

-- Blanks are passed over as long as two more bytes follow.
unfoldable pub skip_space : Text → Text
unfolding is_space
skip_space (c ∷ d ∷ e ∷ cs) =
    let rest = skip_space (d ∷ e ∷ cs) in if is_space c then rest else c ∷ d ∷ e ∷ cs
skip_space (c ∷ d ∷ []) = c ∷ d ∷ []
skip_space (c ∷ []) = c ∷ []
skip_space [] = []

-- Whether a digit makes the number too large. For a negative number `cutoff` is negative, as `LONG_MIN`
-- is, so that each one is.
unfoldable pub exceeds : Bool → ℕ → ℕ → ℕ → Bool
exceeds neg base acc d =
    neg || ltb (long_max / base) acc || ((acc == long_max / base) && ltb (long_max % base) d)

-- `any` and `acc` at the end of the loop, which goes on over the digits once the number is too large.
unfoldable pub strtol_loop : Bool → ℕ → Text → ℤ → ℕ → ℤ × ℕ
unfolding strtol_digit exceeds
strtol_loop neg base [] any acc = (any, acc)
strtol_loop neg base (c ∷ cs) any acc =
    let rest = strtol_loop neg base cs in
    elim (strtol_digit c) [
      | none ↦ (any, acc)
      | some d ↦
          if leb base d
          then (any, acc)
          else (if ltb_ℤ any (pos 0) || exceeds neg base acc d
              then rest (negsuc 0) acc
              else rest (pos 1) (acc * base + d))
    ]

unfoldable pub strtol_result : Bool → ℤ × ℕ → ℤ
strtol_result neg (any, acc) =
    if ltb_ℤ any (pos 0)
    then (if neg then negsuc long_max else pos long_max)
    else (if neg then minus 0 acc else pos acc)

-- From the test of the base on. The base 0 is told by the first byte.
unfoldable pub strtol_number : Bool → ℕ → Text → ℤ
unfolding strtol_loop strtol_result
strtol_number neg base s =
    let b = if base == 0 then (if get_or s 0 0 == 48 then 8 else 10) else base in
    if ltb b 2 || ltb 36 b then pos 0 else strtol_result neg (strtol_loop neg b s (pos 0) 0)

-- A 0 before a hexadecimal digit or an x: nothing is converted where two bytes follow it.
unfoldable pub strtol_prefix : Text → Bool → ℕ → Text → ℤ
unfolding is_hex strtol_number
strtol_prefix beyond neg base [] = pos 0
strtol_prefix beyond neg base (c ∷ cs) =
    if ((base == 0) || (base == 16)) && is_hex (get_or (cs ++ beyond) 0 0) && (c == 48)
    then (if leb 2 (length cs) then pos 0 else strtol_number neg 16 (drop 1 cs))
    else strtol_number neg base (c ∷ cs)

unfoldable pub strtol_sign : Text → ℕ → Text → ℤ
unfolding strtol_prefix
strtol_sign beyond base [] = pos 0
strtol_sign beyond base (c ∷ cs) =
    if c == 45
    then strtol_prefix beyond true base cs
    else (if c == 43
        then strtol_prefix beyond false base cs
        else strtol_prefix beyond false base (c ∷ cs))

-- `s1` is the first `len` bytes, and `beyond` what follows them.
unfoldable pub http_strtol : Text → Text → ℕ → ℤ
unfolding skip_space strtol_sign
http_strtol beyond s1 base = strtol_sign beyond base (skip_space s1)
