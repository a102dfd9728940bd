-- ===== src/Http/Str.antt =====
-- src/http_str.c: the tables of bytes and the functions on strings, and what the requests' code uses
-- of the C library's: `strchr`, `strtok_r`, `isspace`, `strncasecmp`.
pub mod Number
pub mod Search
pub mod Long
use memqueue.Base.{
  ℕ, zero, suc, ◌+◌, ◌-◌, ◌*◌, ◌%◌, ◌^◌, Bool, true, false, ◌&&◌, ◌||◌, List, [], ◌∷◌, Option, none,
  some, Text, length, get_or, leb, ◌==◌, if◌then◌else◌, not, Run, ok, fault, out_of_bounds,
}
use memqueue.Hash.{char_value}

abbrev in_range : ℕ → ℕ → ℕ → Bool
in_range lo hi c = leb lo c && leb c hi

unfoldable pub is_host_terminator : ℕ → Bool
is_host_terminator c = (c == 58) || (c == 47) || (c == 32)

unfoldable pub is_cr_or_lf : ℕ → Bool
is_cr_or_lf c = (c == 10) || (c == 13)

unfoldable pub is_digit : ℕ → Bool
is_digit c = in_range 48 57 c

unfoldable pub is_sep : ℕ → Bool
is_sep c = (c == 32) || (c == 9)

unfoldable pub is_al : ℕ → Bool
is_al c = in_range 97 122 c

unfoldable pub is_al_cap : ℕ → Bool
is_al_cap c = in_range 65 90 c

unfoldable pub is_host_token : ℕ → Bool
unfolding is_digit is_al is_al_cap
is_host_token c = is_digit c || is_al_cap c || is_al c || (c == 46) || (c == 45)

unfoldable pub is_hex : ℕ → Bool
unfolding is_digit
is_hex c = (c == 120) || (c == 88) || is_digit c || in_range 97 102 c || in_range 65 70 c

-- The table's own `is_space`, which holds the blank only.
unfoldable pub is_space : ℕ → Bool
is_space c = c == 32

-- A byte that the table does not name is 0.
unfoldable pub upper : ℕ → ℕ
unfolding is_al
upper c =
    if is_al c
    then c - 32
    else (if in_range 32 126 c || (c == 9) || (c == 10) || (c == 13) then c else 0)

-- `s1[i] - 32 == s2[i]`
abbrev shifted : ℕ → ℕ → Bool
shifted a b = a == b + 32

-- The rounds for `i`, `i - 1`, ... 1: the loop ends before the round for 0.
strcasecmp_loop : ℕ → Text → Text → Bool
strcasecmp_loop zero s1 s2 = true
strcasecmp_loop (suc i) s1 s2 =
    let a = get_or s1 (suc i) 0 in
    let b = get_or s2 (suc i) 0 in
    if not (a == b) && not (shifted a b) then false else strcasecmp_loop i s1 s2

-- `true` is the result 0. Two empty strings are read from the index -1 downwards.
unfoldable pub http_strcasecmp : Text → Text → Run Bool
unfolding strcasecmp_loop
http_strcasecmp s1 s2 =
    if not (length s1 == length s2)
    then ok false
    else (if length s1 == 0
        then fault out_of_bounds
        else ok (strcasecmp_loop (length s1 - 1) s1 s2))

-- The index of the first `c2`.
unfoldable pub http_strcasechr : Text → ℕ → Option ℕ
http_strcasechr [] c2 = none
http_strcasechr (c ∷ cs) c2 =
    let rest = http_strcasechr cs c2 in
    if c == c2 then some 0 else elim rest [ none ↦ none | some i ↦ some (suc i) ]

hash_str_loop : ℕ → Text → ℕ
hash_str_loop hashval [] = hashval
hash_str_loop hashval (c ∷ cs) = hash_str_loop ((char_value c + 31 * hashval) % 2 ^ 32) cs

unfoldable pub hash_str : Text → ℕ → ℕ
unfolding hash_str_loop char_value
hash_str s hash_length = hash_str_loop 0 s % hash_length

-- `isspace` of the C locale.
unfoldable pub isspace : ℕ → Bool
isspace c = in_range 9 13 c || (c == 32)

-- `tolower` of the C locale, as `strncasecmp` compares.
unfoldable pub tolower : ℕ → ℕ
unfolding is_al_cap
tolower c = if is_al_cap c then c + 32 else c

-- `strncasecmp(s, lit, n) == 0` for the whole of `lit`, of length `n`.
unfoldable pub strncasecmp : Text → Text → Bool
unfolding tolower
strncasecmp s [] = true
strncasecmp [] (l ∷ ls) = false
strncasecmp (c ∷ cs) (l ∷ ls) = (tolower c == tolower l) && strncasecmp cs ls

-- What stands before the first `c`, and after it.
unfoldable pub strchr : ℕ → Text → Option (Text × Text)
strchr c [] = none
strchr c (x ∷ xs) =
    let rest = strchr c xs in
    if x == c then some ([], xs) else elim rest [ none ↦ none | some (a, b) ↦ some (x ∷ a, b) ]

unfoldable pub non_empty : Text → List Text → List Text
non_empty [] ts = ts
non_empty (x ∷ xs) ts = (x ∷ xs) ∷ ts

-- The bytes before the first `c`, and the tokens after it.
unfoldable pub token : ℕ → Text → Text × List Text
unfolding non_empty
token c [] = ([], [])
token c (x ∷ xs) = let (w, ts) = token c xs in if x == c then ([], non_empty w ts) else (x ∷ w, ts)

-- The values that `strtok_r` returns in turn: the longest runs without `c` that are not empty.
unfoldable pub strtok : ℕ → Text → List Text
unfolding token non_empty
strtok c s = let (w, ts) = token c s in non_empty w ts
