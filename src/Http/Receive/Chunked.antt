-- ===== src/Http/Receive/Chunked.antt =====
-- src/http_impl.c: a body that is sent in chunks, `http_recv_chunked`, and `http_recvbody`. The rounds of
-- the loop after the first are the argument `later`.
use memqueue.Base.{
  ℕ, ◌+◌, ◌-◌, ◌%◌, ◌^◌, ◌≡◌, refl, Bool, true, List, none, some, Text, Run, ok, fault,
  null_pointer, non_null, ◌>>=◌, length, ltb, ◌==◌, if◌then◌else◌, arith, Bool-cases, inl, inr,
  Option-cases,
}
use memqueue.Http.Str.{http_strcasechr}
use memqueue.Http.Receive.{Recv, Received, ended}
use memqueue.Http.Receive.Body.{Body, http_recv_exact}

-- The body as it came with the header.
abbrev pub unchanged : Text → Body
unchanged body = record { body = some body; body_len = length body; success = true }

-- `recvd` before the loop: what follows the line of the chunk's size. Without an end of line the
-- distance to NULL is taken.
unfoldable pub chunk_recvd : Text → Run ℕ
unfolding http_strcasechr
chunk_recvd body = do
  lf ← non_null (http_strcasechr body 10)
  ok ((length body + (2 ^ 64 - (lf + 1))) % 2 ^ 64)

-- `more` in a round; -1 is the largest `uint64_t`.
unfoldable pub more : ℕ → ℕ → ℕ
more recvd cnt_len = if ltb recvd cnt_len then 2 ^ 64 - 1 else recvd - cnt_len

-- The first round, in which `ret` is 0: it is left where `more` is not.
unfoldable pub chunked_round : Received (Run Body) → ℕ → Text → List Recv → ℕ → Received (Run Body)
unfolding more
chunked_round later cnt_len body rs recvd =
    if recvd == cnt_len
    then ended (ok (unchanged body)) rs
    else (if ltb 0 (more recvd cnt_len) then ended (ok (unchanged body)) rs else later)

unfoldable pub start_chunked :
    Received (Run Body) → ℕ → Text → List Recv → Run ℕ → Received (Run Body)
unfolding chunked_round
start_chunked later cnt_len body rs (ok recvd) = chunked_round later cnt_len body rs recvd
start_chunked later cnt_len body rs (fault why) = ended (fault why) rs

unfoldable pub http_recv_chunked : Received (Run Body) → ℕ → Text → List Recv → Received (Run Body)
unfolding chunk_recvd start_chunked
http_recv_chunked later cnt_len body rs = start_chunked later cnt_len body rs (chunk_recvd body)

unfoldable pub http_recvbody :
    Received (Run Body) → Bool → ℕ → Text → List Recv → Received (Run Body)
unfolding http_recv_chunked http_recv_exact
http_recvbody later chunked cnt_len body rs =
    if chunked then http_recv_chunked later cnt_len body rs else http_recv_exact cnt_len body rs

chunked_round_lem :
    (later : Received (Run Body)) (cnt_len : ℕ) (body : Text) (rs : List Recv) (recvd : ℕ)
    → chunked_round later cnt_len body rs recvd ≡ ended (ok (unchanged body)) rs
unfolding chunked_round more
chunked_round_lem later cnt_len body rs recvd = elim (Bool-cases (recvd == cnt_len)) [
  | inl all ↦ rw all refl
  | inr differs ↦
      let some_more : ltb 0 (more recvd cnt_len) ≡ true = ground (arith, differs) in
      rw (differs, some_more) refl
]

-- Whatever the later rounds of the loop do, nothing of a chunked body is received: the socket is left as
-- it is, and so are the bytes that came with the header if there is an end of line among them; without
-- one, the search's NULL is used.
pub http_recvbody-chunked :
    (later : Received (Run Body)) (cnt_len : ℕ) (body : Text) (rs : List Recv)
    → http_recvbody later true cnt_len body rs
      ≡ ended
          (elim (http_strcasechr body 10) [
            | none ↦ fault null_pointer
            | some _ ↦ ok (unchanged body)
          ])
          rs
unfolding http_recvbody http_recv_chunked chunk_recvd start_chunked
http_recvbody-chunked later cnt_len body rs = elim (Option-cases (http_strcasechr body 10)) [
  | inl none_there ↦ rw none_there refl
  | inr (lf, at) ↦ rw at (chunked_round_lem later cnt_len body rs _)
]
