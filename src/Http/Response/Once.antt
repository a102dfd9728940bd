-- ===== src/Http/Response/Once.antt =====
-- `http_cli_resp_hdr_create` and `http_respond` of src/http_impl.c on a response that is not begun.
use memqueue.Base.{
  ℕ, ◌+◌, ◌*◌, ◌≤◌, ◌≡◌, refl, ap, Bool, List, [], ◌∷◌, ◌++◌, none, some, true, false, Text, codes,
  length, length-append, ◌==◌, if◌then◌else◌, ok, Bool-cases, Option-cases, inl, inr, arith,
}
use memqueue.Hash.{Hash, h_get, h_insert}
use memqueue.Hash.Chain.{Item, find}
use memqueue.Hash.{bucket}
use memqueue.Hash.Lookup.{IsValid, h_insert-IsValid}
use memqueue.Hash.Traverse.{traverse_same}
use memqueue.Http.Response.{
  Cli, hdr_begin, body_sent, http_add_header, http_set_respcode, header_iovecs, is_begin, lay_out,
  with_code, with_server, complete_headers, http_cli_resp_hdr_create, http_respond,
}

-- A client whose response is not begun, that `out` was written to so far, and whose header table is
-- in order.
pub record Ready (out : List (List Text)) (c : Cli) : Type 0 where
  pub sent : c.sent ≡ out
  pub begun : c.state ≡ hdr_begin
  pub valid : IsValid c.hdrs
  pub idle : c.hdrs.order_next ≡ none

-- A client that `n` responses were written to, whose table of headers is in order.
pub record Done (n : ℕ) (c : Cli) : Type 0 where
  pub sent : length c.sent ≡ n
  pub valid : IsValid c.hdrs
  pub idle : c.hdrs.order_next ≡ none

insert_idle :
    (h : Hash Text) (k v : Text) → h.order_next ≡ none → (h_insert h k v).0.order_next ≡ none
unfolding h_insert
insert_idle h k v e = elim (Option-cases (find k (bucket h k))) [
  | inl a ↦ rw (h_insert, a) e
  | inr (x, a) ↦ rw (h_insert, a) e
]

add_header-Ready :
    {out : List (List Text)} (name value : Text) (c : Cli)
    → Ready out c
    → Ready out (http_add_header name value c)
unfolding http_add_header
add_header-Ready name value c r = record {
  sent = r.sent;
  begun = r.begun;
  valid = h_insert-IsValid c.hdrs r.valid name value;
  idle = insert_idle c.hdrs name value r.idle;
}

pub set_respcode-Ready :
    {out : List (List Text)} (code : ℕ) (c : Cli)
    → Ready out c
    → Ready out (http_set_respcode code c)
unfolding http_set_respcode
set_respcode-Ready code c r = elim (Bool-cases (c.respcode == 0)) [
  | inl e ↦
      rw (http_set_respcode, e)
        (add_header-Ready _ _ _
          (record { sent = r.sent; begun = r.begun; valid = r.valid; idle = r.idle }))
  | inr e ↦ rw (http_set_respcode, e) r
]

if-Ready :
    {out : List (List Text)} (b : Bool) {x y : Cli}
    → Ready out x
    → Ready out y
    → Ready out (if b then x else y)
if-Ready true r t = r
if-Ready false r t = t

with_server-Ready : {out : List (List Text)} (c : Cli) → Ready out c → Ready out (with_server c)
unfolding with_server
with_server-Ready c r = elim (Option-cases (h_get c.hdrs (codes "Server"))) [
  | inl e ↦ rw (with_server, e) (add_header-Ready _ _ c r)
  | inr (x, e) ↦ rw (with_server, e) r
]

-- The headers in the order in which they were put in, as they are written.
abbrev layout : Cli → List Text
layout c = header_iovecs c.hdrs.order

length-header_iovecs : (xs : List (Item Text)) → length (header_iovecs xs) ≡ 4 * length xs
length-header_iovecs [] = refl
length-header_iovecs (x ∷ xs) = omega (arith, length-header_iovecs xs)

module _ (to_decimal : ℕ → Text) where
  with_code-Ready : {out : List (List Text)} (c : Cli) → Ready out c → Ready out (with_code c)
  unfolding with_code
  with_code-Ready c r = if-Ready (c.respcode == 0) (set_respcode-Ready 200 c r) r

  complete_headers-Ready :
      {out : List (List Text)} (c : Cli) → Ready out c → Ready out (complete_headers to_decimal c)
  unfolding complete_headers
  complete_headers-Ready c r = with_server-Ready _ (
      with_code-Ready _
        (if-Ready (c.body_len == 0) (set_respcode-Ready 204 c r) (add_header-Ready _ _ c r)))

  -- For a response that is not begun, the header is laid out, and what is written to the array and
  -- the body after it are no more than the places that were counted for it.
  pub http_cli_resp_hdr_create_lem :
      {out : List (List Text)} (c : Cli)
      → Ready out c
      → let c' = complete_headers to_decimal c in
        let v = lay_out c c' c'.hdrs.order c'.hdrs.order in
        (http_cli_resp_hdr_create to_decimal c ≡ ok (some v, c'))
        × (length v.written + (if c.body_len == 0 then 0 else 1) ≤ v.total_iovecs)
  unfolding http_cli_resp_hdr_create
  http_cli_resp_hdr_create_lem c r =
      let c' = complete_headers to_decimal c in
      let r' = complete_headers-Ready c r in
      let t = traverse_same c'.hdrs r'.valid r'.idle in
      (
        rw (ap is_begin r.begun, t, t),
        ground (
          arith,
          length-append (header_iovecs c'.hdrs.order) (codes "\n" ∷ []),
          length-header_iovecs c'.hdrs.order,
        ),
      )

  pub respond-Done :
      (code : ℕ) (body : Text) (c : Cli)
      → Ready c.sent c
      → (c' : Cli) × (http_respond to_decimal code body c ≡ ok c')
        × (is_begin c'.state ≡ false)
        × Done (length c.sent + 1) c'
  unfolding http_respond
  respond-Done code body c r =
      let c₁ = http_set_respcode code c in
      let c₂ =
        (if length body == 0 then c₁ else record c₁ { body = body; body_len = length body }) in
      let r₁ = set_respcode-Ready code c r in
      let r₂ : Ready c.sent c₂ =
        if-Ready (length body == 0) {x = c₁}
          {y = (record c₁ { body = body; body_len = length body })} r₁
          (record { sent = r₁.sent; begun = r₁.begun; valid = r₁.valid; idle = r₁.idle }) in
      let (run, _) = http_cli_resp_hdr_create_lem c₂ r₂ in
      let c' = complete_headers to_decimal c₂ in
      let r' = complete_headers-Ready c₂ r₂ in
      let v = lay_out c₂ c' c'.hdrs.order c'.hdrs.order in
      let all = v.written ++ (if c'.body_len == 0 then [] else c'.body ∷ []) in
      (
        record c' { sent = c'.sent ++ all ∷ []; state = body_sent },
        rw (ap is_begin r.begun, run),
        refl,
        record {
          sent = omega (arith, length-append c'.sent (all ∷ []), ap length r'.sent);
          valid = r'.valid;
          idle = r'.idle;
        },
      )

  pub respond_again :
      (code : ℕ) (body : Text) (c : Cli)
      → is_begin c.state ≡ false
      → http_respond to_decimal code body c ≡ ok c
  unfolding http_respond
  respond_again code body c e = rw e refl

  -- For a response that is not begun, a call returns and writes one array, whatever the code and the
  -- body are; any later call for the request changes nothing.
  pub http_respond_once :
      (code code' : ℕ) (body body' : Text) (c : Cli)
      → Ready c.sent c
      → (c' : Cli) × (http_respond to_decimal code body c ≡ ok c')
        × (length c'.sent ≡ length c.sent + 1)
        × (http_respond to_decimal code' body' c' ≡ ok c')
  http_respond_once code code' body body' c r =
      let (c', run, begun, d) = respond-Done code body c r in
      (c', run, d.sent, respond_again code' body' c' begun)
