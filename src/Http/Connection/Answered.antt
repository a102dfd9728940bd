-- ===== src/Http/Connection/Answered.antt =====
-- The responses of a connection, `http_lt_cli_rd` of src/http_impl.c.
use memqueue.Base.{
  ℕ, ◌+◌, ◌≡◌, refl, ◌⊎◌, inl, inr, Bool, false, List, [], ◌∷◌, ◌++◌, Option, none, some, Text,
  length, if◌then◌else◌, Run, ok, arith, Bool-cases, map,
}
use memqueue.Base.Int.{ℤ}
use memqueue.Hash.{h_init}
use memqueue.Hash.Lookup.{h_init-IsValid}
use memqueue.Hash.Traverse.{traverse_same}
use memqueue.Http.Request.{ReqErr}
use memqueue.Http.Response.{Cli, hdr_begin, is_begin, http_respond}
use memqueue.Http.Response.Once.{Ready, Done, respond-Done, respond_again}
use memqueue.Http.Connection.{
  Read, goes_on, closed, is_answered, is_error, route, http_cli_init, http_cli_reset,
  http_handle_cli_req_err, answer_request, resp_body, serve_request, http_lt_cli_rd,
}

-- A request that was read without an error.
abbrev pub good : Bool → Read
good v = record { err = none; http11 = v }

module _ (to_decimal : ℕ → Text) where
  -- A client that was not answered yet, or was answered once.
  abbrev pub Open : ℕ → Cli → Type 0
  Open n c = (Ready c.sent c × (length c.sent ≡ n)) ⊎ ((is_begin c.state ≡ false) × Done (n + 1) c)

  -- A router that returns without an error and answers at most once.
  abbrev pub Answering : Option (Cli → Run (ℤ × Cli)) → Type 0
  Answering cb =
      (c : Cli)
      → Ready c.sent c
      → (err : ℤ) × (c' : Cli) × (route cb c ≡ ok (err, c'))
        × (is_error err ≡ false)
        × Open (length c.sent) c'

  init-Ready : (c : Cli) → c.state ≡ hdr_begin → Ready c.sent (http_cli_init c)
  unfolding http_cli_init h_init
  init-Ready c e = record {
    sent = refl;
    begun = e;
    valid = h_init-IsValid 128 (omega arith);
    idle = refl;
  }

  respond-Open :
      (n : ℕ) (c : Cli)
      → Open n c
      → (c' : Cli) × (http_respond to_decimal c.respcode (resp_body c) c ≡ ok c') × Done (n + 1) c'
  respond-Open n c (inl (r, e)) =
      let (c', run, _, d) = respond-Done to_decimal c.respcode (resp_body c) c r in
      (c', run, rw e at d)
  respond-Open n c (inr (e, d)) = (c, respond_again to_decimal c.respcode (resp_body c) c e, d)

  reset-Done :
      (n : ℕ) (c : Cli)
      → Done n c
      → (c' : Cli) × (http_cli_reset c ≡ ok c') × (c'.state ≡ hdr_begin) × (length c'.sent ≡ n)
  unfolding http_cli_reset
  reset-Done n c d = (
    record c { state = hdr_begin; body_len = 0; respcode = 0 },
    rw (traverse_same c.hdrs d.valid d.idle) refl,
    refl,
    d.sent,
  )

  answer_request_lem :
      (cb : Option (Cli → Run (ℤ × Cli))) (c : Cli)
      → Answering cb
      → c.state ≡ hdr_begin
      → (c' : Cli) × (answer_request to_decimal cb c ≡ ok (goes_on c'))
        × (c'.state ≡ hdr_begin)
        × (length c'.sent ≡ length c.sent + 1)
  unfolding answer_request http_cli_init
  answer_request_lem cb c answers begun =
      let (err, c₁, run, fine, o) = answers (http_cli_init c) (init-Ready c begun) in
      let (c₂, responded, d) = respond-Open (length c.sent) c₁ o in
      let (c₃, again, b, l) = reset-Done (length c.sent + 1) c₂ d in
      (c₃, rw (run, responded, fine, again) refl, b, l)

  refused_lem :
      (err : ReqErr) (c : Cli)
      → c.state ≡ hdr_begin
      → (c' : Cli) × (http_handle_cli_req_err to_decimal err (http_cli_init c) ≡ ok c')
        × (length c'.sent ≡ length c.sent + (if is_answered err then 1 else 0))
  unfolding http_handle_cli_req_err http_cli_init
  refused_lem err c begun = elim (Bool-cases (is_answered err)) [
    | inl told ↦
        let (c', run, _, d) =
          respond-Done to_decimal 400 [] (http_cli_init c) (init-Ready c begun) in
        rw told (c', run, d.sent)
    | inr silent ↦ rw silent (http_cli_init c, refl, omega arith)
  ]

  -- Requests that are read without an error, of which the router takes each and answers it at most once
  -- without an error, and then one with an error: each of the first is answered once, the last once if
  -- its error is one of those with a 400 and not at all otherwise, and the connection is closed with no
  -- request after it being looked at.
  pub http_lt_cli_rd-answers :
      (cb : Option (Cli → Run (ℤ × Cli))) (vs : List Bool) (err : ReqErr) (v : Bool)
      (rs : List Read) (c : Cli)
      → Answering cb
      → c.state ≡ hdr_begin
      → (c' : Cli) × (http_lt_cli_rd to_decimal cb
            (map good vs ++ record { err = some err; http11 = v } ∷ rs)
            c
          ≡ ok (closed c'))
        × (length c'.sent ≡ length c.sent + length vs + (if is_answered err then 1 else 0))
  unfolding http_lt_cli_rd serve_request
  http_lt_cli_rd-answers cb [] err v rs c answers begun =
      let (c', run, l) = refused_lem err (record c { http11 = v }) begun in
      (c', rw run refl, omega (arith, l))
  http_lt_cli_rd-answers cb (w ∷ vs) err v rs c answers begun =
      let (c₁, run, b, l) = answer_request_lem cb (record c { http11 = w }) answers begun in
      let (c', rest, l') = http_lt_cli_rd-answers cb vs err v rs c₁ answers b in
      (c', rw run rest, omega (arith, l, l'))
