-- ===== src/Http/Handle.antt =====
-- src/http_impl.c: one request from the socket, `http_handle_cli_rd`, but for the response to one that
-- is refused, which is in `serve_request` of Http/Connection.
pub mod Printed
mod Tests
use memqueue.Base.{
  ℕ, Bool, true, false, List, Option, none, some, Text, Run, ok, fault, null_pointer, ◌>>=◌,
  if◌then◌else◌,
}
use memqueue.Base.Int.{ℤ}
use memqueue.Hash.{h_init}
use memqueue.Http.Request.{Method, get, post, put, head, delete, ReqErr}
use memqueue.Http.Request.Headers.{Parsed}
use memqueue.Http.Receive.{Recv, Received, waiting, ended}
use memqueue.Http.Receive.Body.{Body}
use memqueue.Http.Receive.Chunked.{unchanged, http_recvbody}
use memqueue.Http.Connection.{http_recv_req_hdr}
use memqueue.Http.Path.{Target, http_set_path}

-- A request that was refused, or one with its path, its arguments and its body.
pub data Handled : Type 0 where
  refused : ReqErr → Parsed → Handled
  accepted : Parsed → Target → Body → Handled

abbrev pub is_post : Option Method → Bool
is_post (some post) = true
is_post (some get) = false
is_post (some put) = false
is_post (some head) = false
is_post (some delete) = false
is_post none = false

-- What `http_recvbody` returns is not looked at.
unfoldable pub with_body : Parsed → Target → Received (Run Body) → Received (Run Handled)
with_body p t waiting = waiting
with_body p t (ended r rest) = ended (r >>= λ b. ok (accepted p t b)) rest

-- `later` is for the rounds of `http_recv_chunked` after the first.
module _ (later : Received (Run Body)) where
  unfoldable pub after_hdr : Parsed → Text → List Recv → Option Text → Received (Run Handled)
  unfolding http_set_path with_body http_recvbody
  after_hdr p body rest none = ended (fault null_pointer) rest
  after_hdr p body rest (some uri) =
      let t = http_set_path uri (h_init 128) in
      if is_post p.req.method
      then with_body p t (http_recvbody later p.chunked p.cnt_len body rest)
      else ended (ok (accepted p t (unchanged body))) rest

  unfoldable pub handle_req : Received (Option ReqErr × Parsed × Text) → Received (Run Handled)
  unfolding after_hdr
  handle_req waiting = waiting
  handle_req (ended (some err, p, body) rest) = ended (ok (refused err p)) rest
  handle_req (ended (none, p, body) rest) = after_hdr p body rest p.req.uri

  unfoldable pub http_handle_cli_rd :
      (Text → ℤ) → Text → List Recv → Parsed → Received (Run Handled)
  unfolding http_recv_req_hdr handle_req
  http_handle_cli_rd strtol stale rs c = handle_req (http_recv_req_hdr strtol stale rs c)
