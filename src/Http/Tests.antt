-- ===== src/Http/Tests.antt =====
-- A request line, a response and three routes, which the theorems on the HTTP side are tried on.
mod Strings
use memqueue.Base.{
  ℕ, ◌+◌, ◌-◌, ◌≤◌, ◌≡◌, refl, true, false, List, [], ◌∷◌, Option, none, some, Text, codes, length,
  str_eq, ◌==◌, if◌then◌else◌, not, Run, ok, fault, use_after_free, arith, inr,
}
use memqueue.Base.Int.{ℤ, pos, negsuc}
use memqueue.Hash.{Hash, h_init, h_get, h_insert}
use memqueue.Hash.Lookup.{h_init-IsValid}
use memqueue.Http.Str.{isspace, is_cr_or_lf}
use memqueue.Http.Request.{Req, get, drop, http_parse_req_line}
use memqueue.Http.Request.Scan.{AllPass}
use memqueue.Http.Request.Line.{http_parse_req_line-print}
use memqueue.Http.Response.{
  Cli, hdr_begin, lay_out, complete_headers, http_cli_resp_hdr_create, http_respond,
  http_set_respcode,
}
use memqueue.Http.Response.Once.{Ready, http_cli_resp_hdr_create_lem, http_respond_once}
use memqueue.Http.Router.{Route, cut, captures, route_args, http_route_handle_request}
use memqueue.Http.Router.First.{
  table_of, http_route_handle_request-first, http_route_handle_request-stale,
}

abbrev request : Req
request = record {
  method = none;
  method_str = [];
  port = 0;
  uri = none;
  http11 = false;
  hdr = codes "GET /m HTTP/1.1\r\nHost: a\r\n\r\n";
  hdr_start = 0;
}

abbrev rest : Text
rest = codes "\nHost: a\r\n\r\n"

uri_nonspace : AllPass (λ x. not (isspace x)) (47 ∷ 109 ∷ [])
unfolding isspace
uri_nonspace = (refl, (refl, tt))

cr : is_cr_or_lf 13 ≡ true
unfolding is_cr_or_lf
cr = refl

http_parse_req_line-print_example :
    (r' : Req) × (http_parse_req_line request ≡ (none, r'))
    × (r'.method ≡ some get)
    × (r'.uri ≡ some (codes "/m"))
    × (r'.http11 ≡ true)
    × (r'.port ≡ 80)
    × (drop r'.hdr_start r'.hdr ≡ 13 ∷ rest)
http_parse_req_line-print_example =
    http_parse_req_line-print get 47 (109 ∷ []) true 13 rest request uri_nonspace cr refl

-- In place of the C library's `snprintf`.
abbrev to_decimal : ℕ → Text
to_decimal n = codes "1"

abbrev client : Cli
client = record {
  respcode = 0;
  respcode_int = [];
  respcode_str = [];
  hdrs = h_init 128;
  body = [];
  body_len = 0;
  state = hdr_begin;
  http11 = true;
  sent = [];
}

client-Ready : Ready [] client
unfolding h_init
client-Ready = record {
  sent = refl;
  begun = refl;
  valid = h_init-IsValid 128 (omega arith);
  idle = refl;
}

http_cli_resp_hdr_create_lem_example :
    let c' = complete_headers to_decimal client in
    let v = lay_out client c' c'.hdrs.order c'.hdrs.order in
    (http_cli_resp_hdr_create to_decimal client ≡ ok (some v, c'))
    × (length v.written + (if client.body_len == 0 then 0 else 1) ≤ v.total_iovecs)
http_cli_resp_hdr_create_lem_example = http_cli_resp_hdr_create_lem to_decimal client client-Ready

http_respond_once_example :
    (c' : Cli) × (http_respond to_decimal 200 (codes "{}") client ≡ ok c')
    × (length c'.sent ≡ length client.sent + 1)
    × (http_respond to_decimal 404 [] c' ≡ ok c')
http_respond_once_example = http_respond_once to_decimal 200 404 (codes "{}") [] client client-Ready

-- Patterns that match every path, without a group, with one for nothing, and with one for the second
-- byte, and one that matches none.
data Re : Type 0 where
  all group named nothing : Re

abbrev whole : ℕ → ℕ
whole n = 1

-- The group 1 is the second byte.
abbrev places : ℕ → ℕ
places n = n - 1

abbrev exec : Re → Text → Option (ℕ → ℕ)
exec nothing path = none
exec all path = some whole
exec group path = some whole
exec named path = some places

abbrev name_table : Re → List (ℕ × Text)
name_table group = (1, codes "q") ∷ []
name_table named = (1, codes "q") ∷ []
name_table all = []
name_table nothing = []

abbrev answer : Option (Hash Text) → Cli → Run (ℤ × Cli)
answer h c = ok (pos 0, record c { body = codes "{}" })

abbrev decline : Option (Hash Text) → Cli → Run (ℤ × Cli)
decline h c = ok (negsuc 1, c)

abbrev route : Re → (Option (Hash Text) → Cli → Run (ℤ × Cli)) → Route Re
route re cb = record { path = codes "/m"; method = codes "GET"; cb = cb; re = re }

abbrev method : Text
method = codes "GET"

same : str_eq method method ≡ true
unfolding str_eq
same = refl

abbrev show : Option (Hash Text) → Cli → Run (ℤ × Cli)
show none c = ok (pos 0, c)
show (some h) c =
    ok (pos 0, record c { body = elim (h_get h (codes "q")) [ none ↦ [] | some v ↦ v ] })

shown :
    show (table_of (name_table named) places (codes "/m")) client
    ≡ ok (pos 0, record client { body = codes "m" })
unfolding h_get h_insert h_init str_eq
shown = refl

http_route_handle_request-first_example :
    http_route_handle_request exec name_table method
      (codes "/m")
      (route nothing answer ∷ route named show ∷ [])
      client
    ≡ ok (pos 0, record client { body = codes "m" })
http_route_handle_request-first_example =
    http_route_handle_request-first exec name_table method (codes "/m") (route nothing answer ∷ [])
      [] (route named show) places client (record client { body = codes "m" }) (pos 0)
      (inr refl, tt) (same, refl) (omega arith, tt) shown refl

abbrev groups : Hash Text
groups = (h_insert (h_init 128) (codes "q") []).0

one_group :
    route_args exec name_table false (route group decline) whole (codes "/m") ≡ ok (some groups)
unfolding route_args captures cut
one_group = refl

http_route_handle_request-stale_example :
    http_route_handle_request exec name_table method
      (codes "/m")
      (route group decline ∷ route all answer ∷ [])
      client
    ≡ fault use_after_free
http_route_handle_request-stale_example =
    http_route_handle_request-stale exec name_table method (codes "/m") [] [] []
      (route group decline) (route all answer) whole whole groups client client tt (same, refl)
      one_group refl tt (same, refl) refl
