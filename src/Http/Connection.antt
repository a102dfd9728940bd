-- ===== src/Http/Connection.antt =====
-- src/http_impl.c: the requests of a connection, one after the other, `http_lt_cli_rd`. What
-- `http_handle_cli_rd` returns for each is a value.
pub mod Answered
mod Tests
use memqueue.Base.{
  ℕ, Bool, true, false, List, [], ◌∷◌, Option, none, some, Text, ◌==◌, if◌then◌else◌, Run, ok,
  ◌>>=◌, inl, inr, ◌++◌,
}
use memqueue.Base.Int.{ℤ, pos, negsuc}
use memqueue.Hash.{h_init, traverse}
use memqueue.Http.Request.{
  ReqErr, fail, unknown_host, no_cnt_len, max_hdr_exc, cli_closed, inv_req_line, inv_method,
  inv_host, inv_port, inv_proto, timeout_exc, inv_hdr, Req, drop, take,
}
use memqueue.Http.Request.Headers.{Parsed, http_parse_req_hdr}
use memqueue.Http.Receive.{Recv, Received, waiting, ended, http_recv_hdr}
use memqueue.Http.Response.{Cli, RespState, hdr_begin, http_respond}

-- The header of a request and the start of its body. `stale` is what the buffer has after what is
-- received.
unfoldable pub http_recv_req_hdr :
    (Text → ℤ) → Text → List Recv → Parsed → Received (Option ReqErr × Parsed × Text)
unfolding http_recv_hdr http_parse_req_hdr
http_recv_req_hdr strtol stale rs c = elim (http_recv_hdr rs) [
  | waiting ↦ waiting
  | ended r rest ↦ elim r [
    | inl e ↦ ended (some e, c, []) rest
    | inr h ↦
        let c' = record c {
          req = record c.req { hdr = take h.hdr_len h.recvd };
          cnt_len = h.cnt_len;
        } in
        let (err, p) = http_parse_req_hdr strtol (drop h.hdr_len h.recvd ++ stale) c' in
        ended (err, p, h.body) rest
  ]
]

-- The errors that are answered with a 400.
unfoldable pub is_answered : ReqErr → Bool
is_answered unknown_host = true
is_answered no_cnt_len = true
is_answered inv_req_line = true
is_answered max_hdr_exc = true
is_answered inv_host = true
is_answered inv_method = true
is_answered inv_port = true
is_answered inv_proto = true
is_answered fail = false
is_answered cli_closed = false
is_answered timeout_exc = false
is_answered inv_hdr = false

-- The response of a client that is new or was reset; the tables of the request are not part of it.
unfoldable pub http_cli_init : Cli → Cli
http_cli_init c = record c { hdrs = h_init 128; body_len = 0; respcode = 0 }

-- `hdrs` is NULL until the next `http_cli_init`; nothing reads it in between.
unfoldable pub http_cli_reset : Cli → Run Cli
http_cli_reset c = do
  (_, h) ← traverse c.hdrs
  ok (record c { hdrs = h; state = hdr_begin; body_len = 0; respcode = 0 })

-- What `http_handle_cli_rd` returns, and the version that it leaves in the request.
pub record Read : Type 0 where
  pub err : Option ReqErr
  pub http11 : Bool

-- Whether the connection goes on after a request.
pub data Next : Type 0 where
  goes_on closed : Cli → Next

-- `cli->resp.body`, of which `body_len` bytes count.
abbrev pub resp_body : Cli → Text
resp_body c = if c.body_len == 0 then [] else c.body

abbrev pub is_error : ℤ → Bool
is_error (pos n) = false
is_error (negsuc n) = n == 0

unfoldable pub route : Option (Cli → Run (ℤ × Cli)) → Cli → Run (ℤ × Cli)
route none c = ok (pos 0, c)
route (some router_cb) c = router_cb c

module _ (to_decimal : ℕ → Text) where
  unfoldable pub http_handle_cli_req_err : ReqErr → Cli → Run Cli
  unfolding is_answered
  http_handle_cli_req_err err c = if is_answered err then http_respond to_decimal 400 [] c else ok c

  -- A request that was read, for the router of the listener, if it has one.
  unfoldable pub answer_request : Option (Cli → Run (ℤ × Cli)) → Cli → Run Next
  unfolding http_cli_init http_cli_reset route
  answer_request router_cb c = do
    (err, c₁) ← route router_cb (http_cli_init c)
    c₂ ← http_respond to_decimal c₁.respcode (resp_body c₁) c₁
    if is_error err then ok (closed c₂) else (do c₃ ← http_cli_reset c₂; ok (goes_on c₃))

  -- One round.
  unfoldable pub serve_request : Option (Cli → Run (ℤ × Cli)) → Read → Cli → Run Next
  unfolding answer_request http_handle_cli_req_err
  serve_request router_cb r c =
      let c₀ = record c { http11 = r.http11 } in
      elim r.err [
        | some err ↦ (do c' ← http_handle_cli_req_err err (http_cli_init c₀); ok (closed c'))
        | none ↦ answer_request router_cb c₀
      ]

  unfoldable pub http_lt_cli_rd : Option (Cli → Run (ℤ × Cli)) → List Read → Cli → Run Next
  unfolding serve_request
  http_lt_cli_rd router_cb [] c = ok (goes_on c)
  http_lt_cli_rd router_cb (r ∷ rs) c = do
    let rest = http_lt_cli_rd router_cb rs
    next ← serve_request router_cb r c
    elim next [ closed c' ↦ ok (closed c') | goes_on c' ↦ rest c' ]
