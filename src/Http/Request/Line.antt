-- ===== src/Http/Request/Line.antt =====
-- `http_parse_req_line` of src/http_parser.c against the printing of a request line.
use memqueue.Base.{
  ℕ, suc, ◌+◌, ◌-◌, ◌<◌, Bool, true, false, not, [], ◌∷◌, ◌++◌, none, some, Text, codes, length,
  length-append, set, ◌==◌, ltb, if◌then◌else◌, ◌≡◌, refl, ap, sym, ◌∙◌, arith,
}
use memqueue.Http.Str.{isspace, is_cr_or_lf, strncasecmp, tolower, is_al_cap}
use memqueue.Http.Request.{
  Method, get, post, put, head, delete, Req, drop, take, skip, parse_method, parse_version,
  end_line, after_proto, after_uri, after_method, parse_proto, parse_uri, http_parse_req_line,
}
use memqueue.Http.Request.Scan.{
  AllPass, drop-append, take-append, drop-set, skip_lem, drop_past, not_at_end,
}

-- What is printed for a method and for a version.
abbrev pub name : Method → Text
name get = codes "GET"
name post = codes "POST"
name put = codes "PUT"
name head = codes "HEAD"
name delete = codes "DELETE"

abbrev pub version : Bool → Text
version http11 = codes "HTTP/1." ++ (if http11 then 49 else 48) ∷ []

parse_version_lem : (v : Bool) (rest : Text) → parse_version (version v ++ rest) ≡ some v
unfolding parse_version strncasecmp tolower is_al_cap
parse_version_lem true rest = refl
parse_version_lem false rest = refl

parse_method_lem : (m : Method) (rest : Text) → parse_method (name m ++ rest) ≡ some (m, name m)
unfolding parse_method strncasecmp tolower is_al_cap
parse_method_lem get rest = refl
parse_method_lem post rest = refl
parse_method_lem put rest = refl
parse_method_lem head rest = refl
parse_method_lem delete rest = refl

version-AllPass : (v : Bool) → AllPass (λ c. not (is_cr_or_lf c)) (version v)
unfolding is_cr_or_lf
version-AllPass true = (refl, (refl, (refl, (refl, (refl, (refl, (refl, (refl, tt))))))))
version-AllPass false = (refl, (refl, (refl, (refl, (refl, (refl, (refl, (refl, tt))))))))

length-version : (v : Bool) → length (version v) ≡ 8
length-version true = refl
length-version false = refl

is_blank : not (isspace 32) ≡ false
unfolding isspace
is_blank = refl

is_one : AllPass isspace (32 ∷ [])
unfolding isspace
is_one = (refl, tt)

is_not : isspace 72 ≡ false
unfolding isspace
is_not = refl

module _ (v : Bool) (c : ℕ) (rest : Text) (eol : is_cr_or_lf c ≡ true) where
  not_nul : (c == 0) ≡ false
  unfolding is_cr_or_lf
  not_nul = ground (arith, eol)

  after_proto_lem :
      (p : ℕ) (r : Req)
      → drop p r.hdr ≡ version v ++ c ∷ rest
      → after_proto (p + 8) p r ≡ end_line v (p + 8) r
  unfolding after_proto
  after_proto_lem p r d =
      let d' : drop (p + 8) r.hdr ≡ c ∷ rest = drop_past r.hdr p (version v) c rest d in
      let f : (p + 8 == length r.hdr) ≡ false = not_at_end r.hdr (p + 8) c rest d' in
      let g : (p + 8 - p == 8) ≡ true = ground arith in
      let w : parse_version (drop p r.hdr) ≡ some v =
        ap parse_version d ∙ parse_version_lem v (c ∷ rest) in
      let q : skip (λ x. x == 0) r.hdr (p + 8) ≡ p + 8 =
        skip_lem r.hdr (p + 8) [] c rest (λ x. x == 0) d' tt not_nul ∙ omega arith in
      rw (after_proto, f, g, w) (ap (λ n. end_line v n r) q)

  parse_proto_lem :
      (p : ℕ) (r : Req)
      → drop p r.hdr ≡ version v ++ c ∷ rest
      → parse_proto p r ≡ end_line v (p + 8) r
  unfolding parse_proto
  parse_proto_lem p r d =
      let e : skip (λ x. not (is_cr_or_lf x)) r.hdr p ≡ p + 8 =
        skip_lem r.hdr p (version v) c rest _ d (version-AllPass v) (ap not eol) in
      ap (λ n. after_proto n p r) e ∙ after_proto_lem p r d

  module _ (p : ℕ) (r : Req) (uri : Text) where
    abbrev text : Text
    text = version v ++ c ∷ rest

    after_uri_lem :
        drop p r.hdr ≡ uri ++ 32 ∷ text
        → after_uri (p + length uri) p r
          ≡ end_line v (p + length uri + 1 + 8) (record r { uri = some uri })
    unfolding after_uri
    after_uri_lem d =
        let d' : drop (p + length uri) r.hdr ≡ 32 ∷ text = drop_past r.hdr p uri 32 text d in
        let f : (p + length uri == length r.hdr) ≡ false = not_at_end r.hdr _ 32 text d' in
        let t : take (p + length uri - p) (drop p r.hdr) ≡ uri =
          ap (λ n. take n (drop p r.hdr)) {y = length uri} (omega arith)
          ∙ ap (take (length uri)) d
          ∙ take-append uri (32 ∷ text) in
        let q : skip isspace r.hdr (p + length uri) ≡ p + length uri + 1 =
          skip_lem r.hdr (p + length uri) (32 ∷ []) 72 (drop 1 text) isspace d' is_one is_not in
        let d'' : drop (p + length uri + 1) r.hdr ≡ text =
          drop_past r.hdr (p + length uri) (32 ∷ []) 72 (drop 1 text) d' in
        rw (after_uri, f)
          ((λ i. parse_proto (q i) (record r { uri = some (t i) }))
            ∙ parse_proto_lem (p + length uri + 1) (record r { uri = some uri }) d'')

    parse_uri_lem :
        drop p r.hdr ≡ uri ++ 32 ∷ text
        → AllPass (λ x. not (isspace x)) uri
        → parse_uri p r ≡ end_line v (p + length uri + 1 + 8) (record r { uri = some uri })
    unfolding parse_uri
    parse_uri_lem d a =
        let e : skip (λ x. not (isspace x)) r.hdr p ≡ p + length uri =
          skip_lem r.hdr p uri 32 text _ d a is_blank in
        ap (λ n. after_uri n p r) e ∙ after_uri_lem d

    drop_end : drop p r.hdr ≡ uri ++ 32 ∷ text → drop (p + length uri + 1 + 8) r.hdr ≡ c ∷ rest
    drop_end d =
        let d' : drop (p + length uri) r.hdr ≡ 32 ∷ text = drop_past r.hdr p uri 32 text d in
        let d'' : drop (p + length uri + 1) r.hdr ≡ text =
          drop_past r.hdr (p + length uri) (32 ∷ []) 72 (drop 1 text) d' in
        drop_past r.hdr (p + length uri + 1) (version v) c rest d''

    -- The line is ended just before `c`, which is the first byte of the headers.
    drop-end_line :
        drop p r.hdr ≡ uri ++ 32 ∷ text
        → drop (p + length uri + 1 + 8) (set r.hdr (p + length uri + 1 + 8 - 1) 0) ≡ c ∷ rest
    drop-end_line d =
        (λ i. drop (at i) (set r.hdr (before i) 0))
        ∙ drop-set (p + length uri + 8) r.hdr 0
        ∙ ap (λ n. drop n r.hdr) (sym at)
        ∙ drop_end d
      where
        at : p + length uri + 1 + 8 ≡ suc (p + length uri + 8)
        at = omega arith

        before : p + length uri + 1 + 8 - 1 ≡ p + length uri + 8
        before = omega arith

length-name : (m : Method) → 2 < length (name m)
length-name get = omega arith
length-name post = omega arith
length-name put = omega arith
length-name head = omega arith
length-name delete = omega arith

-- A request line printed as method, blank, URI, blank, version and an end of line is parsed without
-- an error into that method, that URI, that version and the port 80, and `hdr_start` is at the end
-- of line; where the URI is not empty and has no white space.
pub http_parse_req_line-print :
    (m : Method) (u : ℕ) (us : Text) (v : Bool) (c : ℕ) (rest : Text) (r : Req)
    → AllPass (λ x. not (isspace x)) (u ∷ us)
    → is_cr_or_lf c ≡ true
    → r.hdr ≡ name m ++ 32 ∷ ((u ∷ us) ++ 32 ∷ (version v ++ c ∷ rest))
    → (r' : Req) × (http_parse_req_line r ≡ (none, r'))
      × (r'.method ≡ some m)
      × (r'.uri ≡ some (u ∷ us))
      × (r'.http11 ≡ v)
      × (r'.port ≡ 80)
      × (drop r'.hdr_start r'.hdr ≡ c ∷ rest)
unfolding http_parse_req_line after_method end_line
http_parse_req_line-print m u us v c rest r a eol e =
    let tail = (u ∷ us) ++ 32 ∷ (version v ++ c ∷ rest) in
    let k = length (name m) in
    let r₁ : Req = record r { port = 80; method = some m; method_str = name m } in
    let d₀ : drop k r.hdr ≡ 32 ∷ tail = ap (drop k) e ∙ drop-append (name m) (32 ∷ tail) in
    let d : drop (k + 1) r.hdr ≡ tail = drop_past r.hdr k (32 ∷ []) u (drop 1 tail) d₀ in
    let s : skip isspace r.hdr k ≡ k + 1 =
      skip_lem r.hdr k (32 ∷ []) u (drop 1 tail) isspace d₀ is_one (ground (arith, a.0)) in
    let f : (k + 1 == length r.hdr) ≡ false = not_at_end r.hdr (k + 1) u (drop 1 tail) d in
    let l : ltb (length r.hdr) 7 ≡ false = ground (
      arith,
      ap length e,
      length-append (name m) (32 ∷ tail),
      length-name m,
      length-append us (32 ∷ (version v ++ c ∷ rest)),
      length-append (version v) (c ∷ rest),
      length-version v,
    ) in
    let w : parse_method r.hdr ≡ some (m, name m) =
      ap parse_method e ∙ parse_method_lem m (32 ∷ tail) in
    let done : after_method (k + 1) r₁
        ≡ end_line v (k + 1 + length (u ∷ us) + 1 + 8) (record r₁ { uri = some (u ∷ us) }) =
      rw (after_method, f) (parse_uri_lem v c rest eol (k + 1) r₁ (u ∷ us) d a) in
    (
      record r₁ {
        uri = some (u ∷ us);
        http11 = v;
        hdr = set r.hdr (k + 1 + length (u ∷ us) + 1 + 8 - 1) 0;
        hdr_start = k + 1 + length (u ∷ us) + 1 + 8;
      },
      rw (http_parse_req_line, l, w) (ap (λ n. after_method n r₁) s ∙ done),
      refl,
      refl,
      refl,
      refl,
      drop-end_line v c rest eol (k + 1) r₁ (u ∷ us) d,
    )
