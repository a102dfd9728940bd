-- ===== src/Http/Tests/Strings.antt =====
-- Numbers and headers, which the theorems on strings are tried on.
use memqueue.Base.{
  true, false, ◌≡◌, ◌∷◌, ◌++◌, [], refl, some, none, Text, codes, ok, arith, Option, str_eq, ℕ,
}
use memqueue.Base.Int.{pos, negsuc}
use memqueue.Hash.{h_init, h_get, h_insert}
use memqueue.Http.Str.{isspace, tolower}
use memqueue.Http.Str.Number.{minus, value, printed, http_strtol2, http_strtol2_lem}
use memqueue.Http.Str.{upper}
use memqueue.Http.Str.Long.{long_max, strtol_digit, http_strtol}
use memqueue.Http.Str.Long.Value.{printed_in, value_in, http_strtol_lem}
use memqueue.Http.Str.Search.{http_strcasestr, IsMatch, http_strcasestr-IsMatch}
use memqueue.Http.Path.{http_set_path}
use memqueue.Http.Path.Printed.{print_args, insert_all, http_set_path-print}
use memqueue.Http.Request.Headers.{Scan, string_at, c_string, http_parse_hdr}
use memqueue.Http.Request.Headers.Bounds.{SameFrom, http_parse_hdr-SameFrom}

http_strtol2_lem_example :
    (http_strtol2 (printed (4 ∷ 2 ∷ []) ++ codes "x") ≡ ok (pos (value 0 (4 ∷ 2 ∷ []))))
    × (http_strtol2 (45 ∷ printed (4 ∷ 2 ∷ []) ++ codes "x") ≡ ok (minus 0 (value 0 (4 ∷ 2 ∷ []))))
http_strtol2_lem_example =
    http_strtol2_lem 4 (2 ∷ []) (codes "x") (omega arith, (omega arith, tt))
      (omega arith, omega arith, omega arith) (omega arith)

-- Two headers after a request line of four bytes, and a body.
abbrev buffer : Text
buffer = codes "GET\0Host: a\r\nA: b\r\n\r\nxy"

http_parse_hdr-SameFrom_example : SameFrom 22 buffer (http_parse_hdr 4 22 buffer (h_init 8)).hdr
http_parse_hdr-SameFrom_example = http_parse_hdr-SameFrom 4 22 buffer (h_init 8) (omega arith)

abbrev scanned : Text → Scan
scanned hdr = http_parse_hdr 0 15 hdr (h_init 8)

abbrev value_of : Text → Text → Option Text
value_of name hdr = elim (h_get (scanned hdr).hdrs name) [
  | none ↦ none
  | some p ↦ some (string_at (scanned hdr).hdr p)
]

-- The last header keeps its end of line, and is lost where the body starts with a blank.
last_header : value_of (codes "a") (codes "Host: x\r\nA: b\n\nxy") ≡ some (codes "b\n")
unfolding h_get h_init h_insert c_string http_parse_hdr isspace tolower str_eq
last_header = refl

lost_header : value_of (codes "a") (codes "Host: x\r\nA: b\n\n y") ≡ none
unfolding h_get h_init h_insert c_string http_parse_hdr isspace tolower str_eq
lost_header = refl

http_set_path-print_example :
    http_set_path
      (codes "/m" ++ 63 ∷ print_args (codes "q", codes "n") ((codes "r", codes "2") ∷ []))
      (h_init 128)
    ≡ record {
      path = codes "/m";
      query_string_args =
          insert_all ((codes "q", codes "n") ∷ (codes "r", codes "2") ∷ []) (h_init 128);
    }
http_set_path-print_example =
    http_set_path-print (codes "/m") (codes "q", codes "n") ((codes "r", codes "2") ∷ [])
      (h_init 128) (refl, (refl, tt))
      ((refl, tt), (refl, tt), (refl, tt), ((refl, tt), (refl, tt), (refl, tt), tt))

http_strcasestr-IsMatch_example :
    (r : Option ℕ) × (http_strcasestr (codes "xAbc") (codes "ab") 4 2 ≡ ok r)
    × IsMatch (codes "xAbc") (codes "ab") 4 2 r
http_strcasestr-IsMatch_example = http_strcasestr-IsMatch (codes "xAbc") (codes "ab") 4 2

-- A match that begins inside of one that ends early is missed.
missed : http_strcasestr (codes "aaab") (codes "aab") 4 3 ≡ ok none
unfolding http_strcasestr upper
missed = refl

no_digit : strtol_digit 13 ≡ none
unfolding strtol_digit
no_digit = refl

http_strtol_lem_example :
    http_strtol [] (printed_in ((true, 1) ∷ (false, 15) ∷ []) ++ 13 ∷ []) 16
    ≡ pos (value_in 16 0 ((true, 1) ∷ (false, 15) ∷ []))
http_strtol_lem_example =
    http_strtol_lem [] (13 ∷ []) 16 1 true ((false, 15) ∷ []) (omega arith) (omega arith)
      (λ e. omega (arith, e)) (omega arith, (omega arith, tt)) no_digit (omega arith)

-- A minus sign makes it the least `long`.
minus_five : http_strtol [] (codes "-5") 10 ≡ negsuc long_max
unfolding http_strtol
minus_five = refl

-- A 0 that a hexadecimal digit follows is not converted.
zero_first : http_strtol [] (codes "0fff") 16 ≡ pos 0
unfolding http_strtol
zero_first = refl
