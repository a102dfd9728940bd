-- ===== src/Http/Response.antt =====
-- src/http_impl.c: the response of a request. Of `struct http_cli` these functions use `resp`, the
-- version of the request, and the socket, here the list of what was written to it.
pub mod Codes
pub mod Once
use memqueue.Base.{
  ℕ, ◌+◌, ◌*◌, Bool, true, false, List, [], ◌∷◌, ◌++◌, Option, none, some, Text, codes, length,
  ◌==◌, if◌then◌else◌, Run, ok, fault, out_of_bounds, ◌>>=◌,
}
use memqueue.Hash.{Hash, h_get, h_insert, traverse}
use memqueue.Hash.Chain.{Item}
use memqueue.Http.Response.Codes.{Status, status}

-- `resp_state_t`
pub data RespState : Type 0 where
  hdr_begin hdr_sent body_sent : RespState

-- `struct http_resp` and the rest; `body_len` is the length that `http_respond` was given.
pub record Cli : Type 0 where
  pub respcode : ℕ
  pub respcode_int : Text
  pub respcode_str : Text
  pub hdrs : Hash Text
  pub body : Text
  pub body_len : ℕ
  pub state : RespState
  pub http11 : Bool
  pub sent : List (List Text)

unfoldable pub http_add_header : Text → Text → Cli → Cli
http_add_header name value cli = record cli { hdrs = (h_insert cli.hdrs name value).0 }

-- The first code stands. Whether the connection is to be kept goes with the code.
unfoldable pub http_set_respcode : ℕ → Cli → Cli
unfolding http_add_header
http_set_respcode code cli =
    if cli.respcode == 0
    then (let t = status code in
        http_add_header (codes "Connection")
          (if t.dont_close then codes "keep-alive" else codes "close")
          (record cli {
            respcode = t.respcode;
            respcode_int = t.respcode_int;
            respcode_str = t.respcode_str;
          }))
    else cli

-- The four pieces that a header is written in.
abbrev pub header_iovecs : List (Item Text) → List Text
header_iovecs [] = []
header_iovecs (x ∷ xs) = x.key ∷ codes ": " ∷ x.value ∷ codes "\n" ∷ header_iovecs xs

abbrev pub is_begin : RespState → Bool
is_begin hdr_begin = true
is_begin _ = false

-- `malloc`ed array: its length, and what is written to it from the start.
pub record Iovecs : Type 0 where
  pub total_iovecs : ℕ
  pub written : List Text

abbrev pub server_name : Text
server_name = codes "express HTTP Server: 1.0"

-- The array for a client `c` and, with its headers complete, `c'`: the loop over the headers runs
-- once to count, `items`, and once to write, `items'`.
abbrev pub lay_out : Cli → Cli → List (Item Text) → List (Item Text) → Iovecs
lay_out c c' items items' =
    let line =
      (if c.http11 then codes "HTTP/1.1 " else codes "HTTP/1.0 ")
      ∷ c'.respcode_int
      ∷ c'.respcode_str
      ∷ codes "\n"
      ∷ [] in
    record {
      total_iovecs = 4 + (if c.body_len == 0 then 0 else 2) + 4 * length items + 1;
      written = line ++ header_iovecs items' ++ codes "\n" ∷ [];
    }

unfoldable pub with_code : Cli → Cli
with_code c = if c.respcode == 0 then http_set_respcode 200 c else c

unfoldable pub with_server : Cli → Cli
with_server c = elim (h_get c.hdrs (codes "Server")) [
  | some _ ↦ c
  | none ↦ http_add_header (codes "Server") server_name c
]

module _ (to_decimal : ℕ → Text) where
  -- The steps that settle the code and the headers before they are laid out.
  unfoldable pub with_length : Cli → Cli
  with_length c =
      if c.body_len == 0
      then http_set_respcode 204 c
      else http_add_header (codes "Content-Length") (to_decimal c.body_len) c

  unfoldable pub complete_headers : Cli → Cli
  unfolding with_length with_code with_server
  complete_headers c = with_server (with_code (with_length c))

  -- `none` is the return of 0 when a response was begun already.
  unfoldable pub http_cli_resp_hdr_create : Cli → Run (Option Iovecs × Cli)
  http_cli_resp_hdr_create c =
      if is_begin c.state
      then (do
        let c' = complete_headers c
        (items, h) ← traverse c'.hdrs
        (items', h') ← traverse h
        ok (some (lay_out c c' items items'), record c' { hdrs = h' }))
      else ok (none, c)

  -- The body goes to the place after the header.
  unfoldable pub http_respond : ℕ → Text → Cli → Run Cli
  http_respond code body cli =
      if is_begin cli.state
      then (do
        let c = http_set_respcode code cli
        let c₁ = (if length body == 0 then c else record c { body = body; body_len = length body })
        (iovecs, c₂) ← http_cli_resp_hdr_create c₁
        elim iovecs [
          | none ↦ ok c₂
          | some v ↦
              let all = v.written ++ (if c₂.body_len == 0 then [] else c₂.body ∷ []) in
              ok (record c₂ { sent = c₂.sent ++ all ∷ []; state = body_sent })
        ])
      else ok cli
