-- ===== src/Http/Request/Headers.antt =====
-- src/http_parser.c: `http_parse_hdr` and `http_parse_req_hdr`, which write to the buffer of the
-- header in place. `strtol` is a parameter. A read past the model's buffer is 0.
pub mod Bounds
use memqueue.Base.{
  ℕ, zero, suc, ◌+◌, ◌-◌, ◌≤◌, ◌<◌, ◌≡◌, refl, ap, ◌∙◌, Bool, true, false, ◌&&◌, ◌||◌, ◌++◌, ◌%◌,
  ◌^◌, List, [], ◌∷◌, Option, none, some, Text, codes, length, get_or, set, ltb, ◌==◌,
  if◌then◌else◌, not, arith,
}
use memqueue.Base.Int.{ℤ, pos, negsuc}
use memqueue.Hash.{Hash, h_insert, h_get}
use memqueue.Http.Str.{isspace, tolower}
use memqueue.Http.Request.{Req, ReqErr, inv_hdr, inv_host, drop, take, http_parse_req_line}

-- The buffer, `start`, and `hdrs`, whose values are positions in the buffer.
pub record Scan : Type 0 where
  pub hdr : Text
  pub start : ℕ
  pub hdrs : Hash ℕ

-- The string at a position, up to its NUL.
unfoldable pub c_string : Text → Text
c_string [] = []
c_string (c ∷ cs) = let rest = c_string cs in if c == 0 then [] else c ∷ rest

abbrev pub string_at : Text → ℕ → Text
string_at hdr p = c_string (drop p hdr)

-- `strchr`, as a distance
unfoldable pub index_of : ℕ → Text → Option ℕ
index_of x [] = none
index_of x (c ∷ cs) =
    let rest = index_of x cs in
    if c == x then some 0 else elim rest [ none ↦ none | some i ↦ some (suc i) ]

unfoldable pub lower_run : Text → Text
lower_run [] = []
lower_run (c ∷ cs) = let rest = lower_run cs in if c == 0 then c ∷ cs else tolower c ∷ rest

-- `for (q = ...; *q; q++) *q = tolower(*q);` from the position `p` on.
unfoldable pub lower_from : ℕ → Text → Text
unfolding lower_run
lower_from zero hdr = lower_run hdr
lower_from (suc p) [] = []
lower_from (suc p) (c ∷ cs) = c ∷ lower_from p cs

-- `while (*p && !isspace(*p)) p++;` as a distance
unfoldable pub word_length : Text → ℕ
word_length [] = 0
word_length (c ∷ cs) = let n = word_length cs in if (c == 0) || isspace c then 0 else suc n

-- The line is ended at `i`, and at a CR before it.
unfoldable pub end_hdr : ℕ → Text → Text
end_hdr i hdr =
    let h = set hdr i 0 in if not (i == 0) && (get_or h (i - 1) 0 == 13) then set h (i - 1) 0 else h

-- The line from `start` to `i`, ended. The value is taken to start after the first blank from the
-- colon on, or after the NUL where there is none.
unfoldable pub parse_line : ℕ → Text → Scan → Scan
unfolding index_of lower_from word_length
parse_line i hdr s = elim (index_of 58 (string_at hdr s.start)) [
  | none ↦ record s { hdr = hdr; start = i + 1 }
  | some k ↦
      let p = s.start + k in
      let h = lower_from s.start (set hdr p 0) in
      let value = p + 1 + word_length (drop (p + 1) h) in
      record {
        hdr = h;
        start = i + 1;
        hdrs = (h_insert s.hdrs (string_at h s.start) (value + 1)).0;
      }
]

-- One round. A line goes on where the next one starts with a blank, as the empty line at the end does.
unfoldable pub hdr_round : ℕ → ℕ → Scan → Scan
unfolding end_hdr parse_line
hdr_round hdr_len i s =
    if get_or s.hdr i 0 == 10
    then (if not (hdr_len - i == 0) && not (isspace (get_or s.hdr (i + 1) 0))
        then parse_line i (end_hdr i s.hdr) s
        else s)
    else s

-- The rounds from `i` on, `n` of them.
unfoldable pub hdr_loop : ℕ → ℕ → ℕ → Scan → Scan
unfolding hdr_round
hdr_loop hdr_len zero i s = s
hdr_loop hdr_len (suc n) i s = hdr_loop hdr_len n (i + 1) (hdr_round hdr_len i s)

unfoldable pub http_parse_hdr : ℕ → ℕ → Text → Hash ℕ → Scan
unfolding hdr_loop
http_parse_hdr hdr_start hdr_len hdr hdrs =
    hdr_loop hdr_len (hdr_len - hdr_start) hdr_start
      (record { hdr = hdr; start = hdr_start; hdrs = hdrs })

-- The rest of `struct http_req` that the headers fill in.
pub record Parsed : Type 0 where
  pub req : Req
  pub buffer : Text
  pub hdrs : Hash ℕ
  pub cnt_len : ℕ
  pub chunked : Bool
  pub host : Option Text

abbrev pub to_u64 : ℤ → ℕ
to_u64 (pos n) = n % 2 ^ 64
to_u64 (negsuc n) = 2 ^ 64 - 1 - n % 2 ^ 64

abbrev pub has_nul : Text → Bool
has_nul [] = false
has_nul (c ∷ cs) = (c == 0) || has_nul cs

-- A header's value as a string.
unfoldable pub header : Parsed → Text → Option Text
unfolding c_string
header c name = elim (h_get c.hdrs name) [ none ↦ none | some p ↦ some (string_at c.buffer p) ]

module _ (strtol : Text → ℤ) where
  -- The port is read from the colon on. Without a colon the whole value is the host.
  unfoldable pub parse_host : Text → Parsed → Option ReqErr × Parsed
  unfolding index_of
  parse_host value c = elim (index_of 58 value) [
    | none ↦ (none, record c { host = some value })
    | some k ↦ if ltb 255 k then (some inv_host, c) else (
      none,
      record c {
        host = some (take k value);
        req = record c.req { port = to_u64 (strtol (drop k value)) % 2 ^ 16 };
      },
    )
  ]

  unfoldable pub read_headers : Parsed → Option ReqErr × Parsed
  unfolding header parse_host
  read_headers c =
      let c₁ : Parsed = elim (header c (codes "content-length")) [
        | none ↦ c
        | some v ↦ record c { cnt_len = to_u64 (strtol v) }
      ] in
      let c₂ : Parsed = elim (header c (codes "transfer-encoding")) [
        | none ↦ c₁
        | some _ ↦ record c₁ { chunked = true }
      ] in
      elim (header c (codes "host")) [ none ↦ (none, c₂) | some v ↦ parse_host v c₂ ]

  -- `beyond` is what the buffer has after the header.
  unfoldable pub http_parse_req_hdr : Text → Parsed → Option ReqErr × Parsed
  unfolding http_parse_hdr read_headers
  http_parse_req_hdr beyond c =
      let (err, r) = http_parse_req_line c.req in
      let s = http_parse_hdr r.hdr_start (length r.hdr) (r.hdr ++ beyond) c.hdrs in
      if has_nul c.req.hdr then (some inv_hdr, c) else elim err [
        | some e ↦ (some e, record c { req = r })
        | none ↦ read_headers (record c { req = r; buffer = s.hdr; hdrs = s.hdrs })
      ]
