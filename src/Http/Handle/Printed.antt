-- ===== src/Http/Handle/Printed.antt =====
-- `http_handle_cli_rd` of src/http_impl.c on a request that is printed and arrives in pieces.
use memqueue.Base.{
  ℕ, ◌<◌, ◌≡◌, ◌≢◌, refl, ap, ◌∙◌, Bool, true, false, not, List, ◌∷◌, ◌++◌, Option, none, some,
  Text, codes, Run, ok, length, get_or, map, ◌⊎◌, inl, inr, ◌==◌, Bool-cases, ltb, Option-cases,
}
use mathlib.Core.Path.{subst}
use memqueue.Base.Int.{ℤ}
use memqueue.Hash.{h_init}
use memqueue.Http.Str.{isspace, is_cr_or_lf}
use memqueue.Http.Request.{
  Method, get, post, put, head, delete, ReqErr, inv_host, Req, drop, take, http_parse_req_line,
}
use memqueue.Http.Request.Scan.{AllPass}
use memqueue.Http.Request.Line.{name, version, http_parse_req_line-print}
use memqueue.Http.Request.Headers.{
  Parsed, to_u64, has_nul, index_of, header, parse_host, http_parse_hdr, read_headers,
  http_parse_req_hdr,
}
use memqueue.Http.Receive.{Recv, bytes, Received, ended, max_hdr_len, find_end}
use memqueue.Http.Receive.Header.{join, NoneEmpty, http_recv_hdr-pieces}
use memqueue.Http.Receive.Body.{Body}
use memqueue.Http.Receive.Chunked.{unchanged}
use memqueue.Http.Connection.{http_recv_req_hdr}
use memqueue.Http.Path.{http_set_path}
use memqueue.Http.Path.Printed.{Free, Plain, print_args, insert_all, http_set_path-print}
use memqueue.Http.Handle.{
  Handled, refused, accepted, is_post, handle_req, after_hdr, http_handle_cli_rd,
}

-- The request line is as it was.
record SameLine (r r' : Req) : Type 0 where
  method : r'.method ≡ r.method
  uri : r'.uri ≡ r.uri
  http11 : r'.http11 ≡ r.http11

-- The outcome of the headers, after a request line that was read.
abbrev Outcome : Req → Option ReqErr × Parsed → Type 0
Outcome r (err, p) = SameLine r p.req × ((err ≡ none) ⊎ (err ≡ some inv_host))

abbrev untouched : (r : Req) → SameLine r r
untouched r = record { method = refl; uri = refl; http11 = refl }

module _ (strtol : Text → ℤ) where
  parse_host-Outcome : (value : Text) (c : Parsed) → Outcome c.req (parse_host strtol value c)
  unfolding parse_host
  parse_host-Outcome value c = elim (Option-cases (index_of 58 value)) [
    | inl whole ↦ rw (parse_host, whole) (untouched c.req, inl refl)
    | inr (k, at) ↦ elim (Bool-cases (ltb 255 k)) [
      | inl long ↦ rw (parse_host, at, long) (untouched c.req, inr refl)
      | inr fits ↦
          rw (parse_host, at, fits) (record { method = refl; uri = refl; http11 = refl }, inl refl)
    ]
  ]

  host_case :
      (host : Option Text) (c : Parsed)
      → Outcome c.req (elim host [ none ↦ (none, c) | some v ↦ parse_host strtol v c ])
  host_case none c = (untouched c.req, inl refl)
  host_case (some v) c = parse_host-Outcome v c

  same_req :
      (length_of encoding : Option Text) (c : Parsed)
      → (let c₁ : Parsed = elim length_of [
        | none ↦ c
        | some v ↦ record c { cnt_len = to_u64 (strtol v) }
      ] in
          let c₂ : Parsed = elim encoding [ none ↦ c₁ | some _ ↦ record c₁ { chunked = true } ] in
          c₂.req)
        ≡ c.req
  same_req none none c = refl
  same_req none (some e) c = refl
  same_req (some v) none c = refl
  same_req (some v) (some e) c = refl

  read_headers-Outcome : (c : Parsed) → Outcome c.req (read_headers strtol c)
  unfolding read_headers
  read_headers-Outcome c =
      subst (λ r. Outcome r (read_headers strtol c))
        (same_req (header c (codes "content-length")) (header c (codes "transfer-encoding")) c)
        (host_case (header c (codes "host")) _)

  module _ (m : Method) (u : ℕ) (us : Text) (v : Bool) (c : ℕ) (rest beyond : Text) (x : Parsed)
      (word : AllPass (λ y. not (isspace y)) (u ∷ us)) (eol : is_cr_or_lf c ≡ true)
      (line : x.req.hdr ≡ name m ++ 32 ∷ ((u ∷ us) ++ 32 ∷ (version v ++ c ∷ rest)))
      (plain : has_nul x.req.hdr ≡ false) where
    http_parse_req_hdr-print :
        (e : Option ReqErr) × (p : Parsed) × (http_parse_req_hdr strtol beyond x ≡ (e, p))
        × (p.req.method ≡ some m)
        × (p.req.uri ≡ some (u ∷ us))
        × (p.req.http11 ≡ v)
        × ((e ≡ none) ⊎ (e ≡ some inv_host))
    unfolding http_parse_req_hdr
    http_parse_req_hdr-print =
        let (_, run, method, uri, http11, _, _) =
          http_parse_req_line-print m u us v c rest x.req word eol line in
        let r = (http_parse_req_line x.req).1 in
        let fine : (http_parse_req_line x.req).0 ≡ none = ap (λ z. z.0) run in
        let s = http_parse_hdr r.hdr_start (length r.hdr) (r.hdr ++ beyond) x.hdrs in
        let x' : Parsed = record x { req = r; buffer = s.hdr; hdrs = s.hdrs } in
        let (same, outcome) = read_headers-Outcome x' in
        (
          (read_headers strtol x').0,
          (read_headers strtol x').1,
          rw (plain, fine) refl,
          same.method ∙ ap (λ z. z.1.method) run ∙ method,
          same.uri ∙ ap (λ z. z.1.uri) run ∙ uri,
          same.http11 ∙ ap (λ z. z.1.http11) run ∙ http11,
          outcome,
        )

is_post_lem : (m : Method) → m ≢ post → is_post (some m) ≡ false
is_post_lem get n = refl
is_post_lem post n = absurd (n refl)
is_post_lem put n = refl
is_post_lem head n = refl
is_post_lem delete n = refl

module _ (later : Received (Run Body)) where
  -- What follows a header that was read without an error, for a request that is no POST.
  handle_req-accepted :
      (m : Method) (p : Parsed) (body uri : Text) (rs : List Recv)
      → p.req.method ≡ some m
      → m ≢ post
      → p.req.uri ≡ some uri
      → handle_req later (ended (none, p, body) rs)
        ≡ ended (ok (accepted p (http_set_path uri (h_init 128)) (unchanged body))) rs
  unfolding handle_req after_hdr
  handle_req-accepted m p body uri rs method other at =
      let no_post : is_post p.req.method ≡ false = ap is_post method ∙ is_post_lem m other in
      rw (at, no_post) refl

-- A request that is no POST, of a path with a slash, without '?', and arguments whose names have no '='
-- and no '&' and whose values have no '&', no white space among them, a version, and header lines
-- without a NUL, however it arrives in pieces that are not empty, its first byte not blank, up to the
-- piece that brings the end that the search finds: it is taken with that method, that version, that path
-- and those arguments in their order, and with what the last piece has beyond the end as its body,
-- nothing more being received; or it is refused for its host.
pub http_handle_cli_rd-print :
    (later : Received (Run Body)) (strtol : Text → ℤ) (stale : Text) (x₀ : Parsed) (ts : List Text)
    (x : Text) (n : ℕ) (rs : List Recv) (m : Method) (path : Text) (a : Text × Text)
    (as' : List (Text × Text)) (v : Bool) (c : ℕ) (rest : Text)
    → NoneEmpty ts
    → (length x == 0) ≡ false
    → isspace (get_or (join ts ++ x) 0 0) ≡ false
    → find_end (join ts) ≡ none
    → find_end (join ts ++ x) ≡ some n
    → length (join ts) < max_hdr_len
    → take n (join ts ++ x)
      ≡ name m ++ 32 ∷ (((47 ∷ path) ++ 63 ∷ print_args a as') ++ 32 ∷ (version v ++ c ∷ rest))
    → has_nul (take n (join ts ++ x)) ≡ false
    → is_cr_or_lf c ≡ true
    → AllPass (λ y. not (isspace y)) ((47 ∷ path) ++ 63 ∷ print_args a as')
    → Free 63 (47 ∷ path)
    → Plain (a ∷ as')
    → m ≢ post
    → (p : Parsed) × (r : Handled) × (http_handle_cli_rd later strtol stale
          (map bytes ts ++ bytes x ∷ rs)
          x₀
        ≡ ended (ok r) rs)
      × ((r ≡ refused inv_host p)
          ⊎ (r
              ≡ accepted p
                  (record {
                    path = 47 ∷ path;
                    query_string_args = insert_all (a ∷ as') (h_init 128);
                  })
                  (unchanged (drop n (join ts ++ x)))))
      × (p.req.method ≡ some m)
      × (p.req.http11 ≡ v)
unfolding http_handle_cli_rd http_recv_req_hdr handle_req
http_handle_cli_rd-print later strtol stale x₀ ts x n rs m path a as' v c rest ne some_x black open_
      closed room line plain eol word f args other =
    let (recvd, _) = http_recv_hdr-pieces ts x n rs ne some_x black open_ closed room in
    let x₁ : Parsed = record x₀ {
      req = record x₀.req { hdr = take n (join ts ++ x) };
      cnt_len = 0;
    } in
    let us = path ++ 63 ∷ print_args a as' in
    let (e, p, parsed, method, uri, http11, outcome) =
      http_parse_req_hdr-print strtol m 47 us v c rest (drop n (join ts ++ x) ++ stale) x₁ word eol
        line plain in
    let target = http_set_path-print (47 ∷ path) a as' (h_init 128) f args in
    let run : http_recv_req_hdr strtol stale (map bytes ts ++ bytes x ∷ rs) x₀
        ≡ ended (e, p, drop n (join ts ++ x)) rs =
      rw (http_recv_req_hdr, recvd, parsed) refl in
    let all : http_handle_cli_rd later strtol stale (map bytes ts ++ bytes x ∷ rs) x₀
        ≡ handle_req later (ended (e, p, drop n (join ts ++ x)) rs) =
      ap (handle_req later) run in
    elim outcome [
      | inl fine ↦ (
        p,
        accepted p (http_set_path (47 ∷ us) (h_init 128)) (unchanged (drop n (join ts ++ x))),
        all
            ∙ ap (λ o. handle_req later (ended (o, p, drop n (join ts ++ x)) rs)) fine
            ∙ handle_req-accepted later m p (drop n (join ts ++ x)) (47 ∷ us) rs method other uri,
        inr (ap (λ t. accepted p t (unchanged (drop n (join ts ++ x)))) target),
        method,
        http11,
      )
      | inr host ↦ (
        p,
        refused inv_host p,
        all ∙ ap (λ o. handle_req later (ended (o, p, drop n (join ts ++ x)) rs)) host,
        inl refl,
        method,
        http11,
      )
    ]
