-- ===== src/Http/Request.antt =====
-- src/http_parser.c, `http_parse_req_line`, and the part of `struct http_req` that it writes. Its
-- states `st_host` and `st_port` are never entered: `state` is `st_uri` before the loop, and that
-- case goes on to `st_proto` and returns. A byte of the header is at most 127.
pub mod Scan
pub mod Line
pub mod Headers
use memqueue.Base.{
  ℕ, zero, suc, ◌+◌, ◌-◌, Bool, true, false, List, [], ◌∷◌, Option, none, some, Text, codes, length,
  get_or, set, ltb, ◌==◌, if◌then◌else◌, not,
}
use memqueue.Http.Str.{isspace, is_cr_or_lf, strncasecmp}

-- `http_method_t`
pub data Method : Type 0 where
  get post put head delete : Method

-- `http_req_err_t`
pub data ReqErr : Type 0 where
  fail unknown_host no_cnt_len max_hdr_exc cli_closed inv_req_line inv_method inv_host inv_port
        inv_proto timeout_exc inv_hdr :
      ReqErr

-- `hdr` is the first `hdr_len` bytes of the buffer.
pub record Req : Type 0 where
  pub method : Option Method
  pub method_str : Text
  pub port : ℕ
  pub uri : Option Text
  pub http11 : Bool
  pub hdr : Text
  pub hdr_start : ℕ

abbrev pub drop : ℕ → Text → Text
drop zero xs = xs
drop (suc n) [] = []
drop (suc n) (x ∷ xs) = drop n xs

abbrev pub take : ℕ → Text → Text
take zero xs = []
take (suc n) [] = []
take (suc n) (x ∷ xs) = x ∷ take n xs

-- The number of bytes at the start that pass the test.
unfoldable pub run_length : (ℕ → Bool) → Text → ℕ
run_length test [] = 0
run_length test (c ∷ cs) = let n = run_length test cs in if test c then suc n else 0

-- `while (p < len && test(hdr[p])) p++`
unfoldable pub skip : (ℕ → Bool) → Text → ℕ → ℕ
unfolding run_length
skip test hdr p = p + run_length test (drop p hdr)

-- The name that the header starts with, and its length.
unfoldable pub parse_method : Text → Option (Method × Text)
unfolding strncasecmp
parse_method hdr =
    if strncasecmp hdr (codes "GET")
    then some (get, codes "GET")
    else (if strncasecmp hdr (codes "PUT")
        then some (put, codes "PUT")
        else (if strncasecmp hdr (codes "DELETE")
            then some (delete, codes "DELETE")
            else (if strncasecmp hdr (codes "POST")
                then some (post, codes "POST")
                else (if strncasecmp hdr (codes "HEAD") then some (head, codes "HEAD") else none))))

-- The version that the eight bytes name.
unfoldable pub parse_version : Text → Option Bool
unfolding strncasecmp
parse_version proto =
    if strncasecmp proto (codes "HTTP/1.1")
    then some true
    else (if strncasecmp proto (codes "HTTP/1.0") then some false else none)

-- The header is ended by a NUL before `hdr_start`.
unfoldable pub end_line : Bool → ℕ → Req → Option ReqErr × Req
end_line v p r = (none, record r { http11 = v; hdr = set r.hdr (p - 1) 0; hdr_start = p })

-- `st_proto` from the end of its loop, at `p`.
unfoldable pub after_proto : ℕ → ℕ → Req → Option ReqErr × Req
unfolding skip parse_version end_line
after_proto p proto_start r =
    if p == length r.hdr
    then (some inv_req_line, r)
    else (if not (p - proto_start == 8)
        then (some inv_proto, r)
        else elim (parse_version (drop proto_start r.hdr)) [
          | none ↦ (some inv_proto, r)
          | some v ↦ end_line v (skip (λ c. c == 0) r.hdr p) r
        ])

-- `st_proto`
unfoldable pub parse_proto : ℕ → Req → Option ReqErr × Req
unfolding skip is_cr_or_lf after_proto
parse_proto proto_start r =
    after_proto (skip (λ c. not (is_cr_or_lf c)) r.hdr proto_start) proto_start r

-- `st_uri` from the end of its first loop, at `p`.
unfoldable pub after_uri : ℕ → ℕ → Req → Option ReqErr × Req
unfolding skip isspace parse_proto
after_uri p uri_start r =
    if p == length r.hdr
    then (some inv_req_line, r)
    else parse_proto (skip isspace r.hdr p)
        (record r { uri = some (take (p - uri_start) (drop uri_start r.hdr)) })

-- `st_uri`
unfoldable pub parse_uri : ℕ → Req → Option ReqErr × Req
unfolding skip isspace after_uri
parse_uri uri_start r = after_uri (skip (λ c. not (isspace c)) r.hdr uri_start) uri_start r

-- The function from the end of the loop after the method, at `p`.
unfoldable pub after_method : ℕ → Req → Option ReqErr × Req
unfolding parse_uri
after_method p r = if p == length r.hdr then (some inv_req_line, r) else parse_uri p r

unfoldable pub http_parse_req_line : Req → Option ReqErr × Req
unfolding parse_method skip isspace after_method
http_parse_req_line c =
    let r = record c { port = 80 } in
    if ltb (length r.hdr) 7 then (some inv_req_line, r) else elim (parse_method r.hdr) [
      | none ↦ (some inv_method, r)
      | some (m, name) ↦
          after_method (skip isspace r.hdr (length name))
            (record r { method = some m; method_str = name })
    ]
