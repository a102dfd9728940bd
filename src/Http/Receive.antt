-- ===== src/Http/Receive.antt =====
-- src/http_impl.c: what a request is received into, `http_recv_hdr` and `http_recv_exact`. A socket
-- is the list of what `http_recv` returns in turn, as the network library behind it is a parameter of
-- the model: a function that needs more of it than there is waits.
pub mod Header
pub mod Body
pub mod Chunked
mod Tests
use memqueue.Base.{
  ℕ, zero, suc, ◌+◌, ◌-◌, Bool, true, false, ◌&&◌, List, [], ◌∷◌, ◌++◌, Option, none, some, Text,
  codes, length, leb, ◌==◌, if◌then◌else◌, ◌⊎◌, inl, inr,
}
use memqueue.Http.Str.{isspace}
use memqueue.Http.Request.{ReqErr, cli_closed, timeout_exc, max_hdr_exc, drop, take}

-- A result of `http_recv`: bytes, of which there are none when the peer has closed, -1, or -2.
pub data Recv : Type 0 where
  bytes : Text → Recv
  failed timed_out : Recv

-- A function that waits for the socket, or its result with what the socket gives afterwards.
pub data Received {ℓ} (A : Type ℓ) : Type ℓ where
  waiting : Received A
  ended : A → List Recv → Received A

-- `HTTP_MAX_HDR_LEN`
abbrev pub max_hdr_len : ℕ
max_hdr_len = 8192

-- `hdr` and the `recvd` of its bytes that are received, `hdr_len`, `cnt_len`, and the `body_len` bytes of `body`.
pub record Head : Type 0 where
  pub recvd : Text
  pub hdr_len : ℕ
  pub cnt_len : ℕ
  pub body : Text

-- The loop over the blanks at the start, from `i` and `ret` on: what it leaves in `i`. It ends after
-- half the bytes, since `ret` goes down while `i` goes up.
unfoldable pub blank_loop : Text → ℕ → ℕ → ℕ
blank_loop [] i ret = i
blank_loop (c ∷ cs) i ret =
    let rest = blank_loop cs (i + 1) (ret - 1) in if leb i ret && isspace c then rest else i

-- The bytes that are kept of the first ones received.
unfoldable pub skip_blanks : Text → Text
unfolding blank_loop
skip_blanks t = drop (blank_loop t 0 (length t)) t

-- Whether the text starts with `lit`.
unfoldable pub starts : Text → Text → Bool
starts [] s = true
starts (l ∷ ls) [] = false
starts (l ∷ ls) (c ∷ cs) = (l == c) && starts ls cs

-- `strstr(s, lit)`, as an index: the string ends at a NUL.
unfoldable pub strstr : Text → Text → Option ℕ
unfolding starts
strstr [] lit = if starts lit [] then some 0 else none
strstr (c ∷ cs) lit =
    let rest = strstr cs lit in
    if starts lit (c ∷ cs)
    then some 0
    else (if c == 0 then none else elim rest [ none ↦ none | some i ↦ some (suc i) ])

-- `hdr_len`, where the end of the header is among the bytes.
unfoldable pub find_end : Text → Option ℕ
unfolding strstr
find_end hdr = elim (strstr hdr (13 ∷ 10 ∷ 13 ∷ 10 ∷ [])) [
  | some i ↦ some (i + 4)
  | none ↦ elim (strstr hdr (10 ∷ 10 ∷ [])) [ some i ↦ some (i + 2) | none ↦ none ]
]

-- What is kept of the bytes of one receive.
unfoldable pub unblanked : Text → Text → Text
unfolding skip_blanks
unblanked [] t = skip_blanks t
unblanked (c ∷ cs) t = t

-- The loop after a search for the end: `rest` is what its next round returns.
unfoldable pub at_end :
    Option ℕ → Text → List Recv → Received (ReqErr ⊎ Head) → Received (ReqErr ⊎ Head)
at_end (some n) recvd rs rest =
    ended (inr (record { recvd = recvd; hdr_len = n; cnt_len = 0; body = drop n recvd })) rs
at_end none recvd rs rest = rest

-- The loop after `t` was received. The NUL is written to `hdr[recvd]` and taken back; with 8192 bytes
-- that is the byte after the array, in `hdr_start`.
unfoldable pub search_end :
    Text → Text → List Recv → Received (ReqErr ⊎ Head) → Received (ReqErr ⊎ Head)
unfolding at_end
search_end t recvd rs rest =
    if length t == 0 then rest else at_end (find_end (recvd ++ t)) (recvd ++ t) rs rest

unfoldable pub recv_hdr_loop : Text → List Recv → Received (ReqErr ⊎ Head)
recv_hdr_loop recvd [] =
    if leb max_hdr_len (length recvd) then ended (inl max_hdr_exc) [] else waiting
recv_hdr_loop recvd (timed_out ∷ rs) =
    if leb max_hdr_len (length recvd)
    then ended (inl max_hdr_exc) (timed_out ∷ rs)
    else ended (inl timeout_exc) rs
recv_hdr_loop recvd (failed ∷ rs) =
    if leb max_hdr_len (length recvd)
    then ended (inl max_hdr_exc) (failed ∷ rs)
    else ended (inl cli_closed) rs
recv_hdr_loop recvd (bytes t ∷ rs) =
    let rest = recv_hdr_loop (recvd ++ unblanked recvd t) rs in
    if leb max_hdr_len (length recvd)
    then ended (inl max_hdr_exc) (bytes t ∷ rs)
    else (if length t == 0
        then ended (inl cli_closed) rs
        else search_end (unblanked recvd t) recvd rs rest)

unfoldable pub http_recv_hdr : List Recv → Received (ReqErr ⊎ Head)
unfolding recv_hdr_loop
http_recv_hdr rs = recv_hdr_loop [] rs
