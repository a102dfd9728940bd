-- ===== src/Http/Receive/Header.antt =====
-- `http_recv_hdr` of src/http_impl.c, whichever pieces a header arrives in.
use memqueue.Base.{
  ℕ, ◌+◌, ◌-◌, ◌*◌, ◌≤◌, ◌<◌, ◌≡◌, refl, ap, sym, ◌∙◌, true, false, List, [], ◌∷◌, ◌++◌, none, some,
  Text, length, length-append, leb, ◌==◌, arith, map, Option-cases, Bool-cases, inl, inr, get_or,
}
use mathlib.Core.List.{append_assoc, append-nil}
use memqueue.Http.Str.{isspace}
use memqueue.Http.Request.{max_hdr_exc, drop}
use memqueue.Http.Request.Scan.{AllPass, drop-append}
use memqueue.Http.Receive.{
  Recv, bytes, failed, timed_out, ended, max_hdr_len, starts, strstr, find_end, unblanked,
  skip_blanks, blank_loop, search_end, at_end, recv_hdr_loop, http_recv_hdr,
}

starts-append : (lit s t : Text) → starts lit (s ++ t) ≡ false → starts lit s ≡ false
unfolding starts
starts-append [] s t e = e
starts-append (l ∷ ls) [] t e = refl
starts-append (l ∷ ls) (c ∷ cs) t e = ground (arith, starts-append ls cs t)

strstr-append : (lit s t : Text) → strstr (s ++ t) lit ≡ none → strstr s lit ≡ none
unfolding strstr starts
strstr-append [] [] [] e = e
strstr-append [] [] (x ∷ t) e = ground arith
strstr-append (l ∷ ls) [] t e = refl
strstr-append lit (c ∷ cs) t e =
    ground (arith, starts-append lit (c ∷ cs) t, strstr-append lit cs t)

find_end-append : (s t : Text) → find_end (s ++ t) ≡ none → find_end s ≡ none
unfolding find_end
find_end-append s t e =
    ground (arith, strstr-append (13 ∷ 10 ∷ 13 ∷ 10 ∷ []) s t, strstr-append (10 ∷ 10 ∷ []) s t)

-- The bytes of the pieces, in order.
abbrev pub join : List Text → Text
join [] = []
join (t ∷ ts) = t ++ join ts

abbrev pub NoneEmpty : List Text → Type 0
NoneEmpty [] = Unit
NoneEmpty (t ∷ ts) = ((length t == 0) ≡ false) × NoneEmpty ts

kept_lem :
    (recvd t u : Text)
    → (length t == 0) ≡ false
    → isspace (get_or (recvd ++ t ++ u) 0 0) ≡ false
    → unblanked recvd t ≡ t
unfolding unblanked skip_blanks blank_loop
kept_lem [] [] u n e = refl
kept_lem [] (c ∷ cs) u n e = ground arith
kept_lem (x ∷ xs) t u n e = refl

shorter :
    (s t u : Text)
    → (length t == 0) ≡ false
    → length (s ++ t ++ u) ≤ max_hdr_len
    → leb max_hdr_len (length s) ≡ false
shorter s t u n e = ground (arith, length-append (s ++ t) u, length-append s t)

at_limit :
    (recvd : Text) (rs : List Recv)
    → leb max_hdr_len (length recvd) ≡ true
    → recv_hdr_loop recvd rs ≡ ended (inl max_hdr_exc) rs
unfolding recv_hdr_loop
at_limit recvd [] e = rw e refl
at_limit recvd (bytes t ∷ rs) e = rw e refl
at_limit recvd (failed ∷ rs) e = rw e refl
at_limit recvd (timed_out ∷ rs) e = rw e refl

open_pieces :
    (all u : Text) (rs : List Recv) (ts : List Text) (recvd : Text)
    → find_end all ≡ none
    → length all ≤ max_hdr_len
    → isspace (get_or (all ++ u) 0 0) ≡ false
    → NoneEmpty ts
    → recvd ++ join ts ≡ all
    → recv_hdr_loop recvd (map bytes ts ++ rs) ≡ recv_hdr_loop all rs
unfolding recv_hdr_loop search_end at_end
open_pieces all u rs [] recvd unended room black ne e =
    ap (λ r. recv_hdr_loop r rs) (sym (append-nil recvd) ∙ e)
open_pieces all u rs (t ∷ ts) recvd unended room black (some_t, ne) e =
    let e' : (recvd ++ t) ++ join ts ≡ all = append_assoc recvd t (join ts) ∙ e in
    let less = shorter recvd t (join ts) some_t (rw e' room) in
    let k =
      kept_lem recvd t (join ts ++ u) some_t
        (rw (sym (append_assoc (recvd ++ t) (join ts) u), e') black) in
    let o : find_end (recvd ++ t) ≡ none = find_end-append (recvd ++ t) (join ts) (rw e' unended) in
    let later = map bytes ts ++ rs in
    rw (less, some_t)
      (ap (λ v. search_end v recvd later (recv_hdr_loop (recvd ++ v) later)) k
        ∙ rw (search_end, some_t, o)
            (open_pieces all u rs ts (recvd ++ t) unended room black ne e'))

last_piece :
    (all x : Text) (n : ℕ) (rs : List Recv)
    → (length x == 0) ≡ false
    → find_end (all ++ x) ≡ some n
    → length all < max_hdr_len
    → isspace (get_or (all ++ x) 0 0) ≡ false
    → recv_hdr_loop all (bytes x ∷ rs)
      ≡ ended
          (inr (record { recvd = all ++ x; hdr_len = n; cnt_len = 0; body = drop n (all ++ x) }))
          rs
unfolding recv_hdr_loop search_end at_end
last_piece all x n rs some_x closed room black =
    let k = kept_lem all x [] some_x (rw (append-nil (all ++ x)) black) in
    let less : leb max_hdr_len (length all) ≡ false = ground (arith, room) in
    rw (less, some_x)
      (ap (λ t. search_end t all rs (recv_hdr_loop (all ++ t) rs)) k
        ∙ rw (search_end, some_x, closed) refl)

starts-length : (lit s : Text) → starts lit s ≡ true → length lit ≤ length s
unfolding starts
starts-length [] s e = omega arith
starts-length (l ∷ ls) [] e = ground arith
starts-length (l ∷ ls) (c ∷ cs) e = ground (arith, starts-length ls cs)

strstr-length : (lit s : Text) (i : ℕ) → strstr s lit ≡ some i → i + length lit ≤ length s
unfolding strstr
strstr-length lit [] i e = ground (arith, e, starts-length lit [])
strstr-length lit (c ∷ cs) i e = elim (Bool-cases (starts lit (c ∷ cs))) [
  | inl here ↦ ground (arith, e, here, starts-length lit (c ∷ cs))
  | inr not_here ↦ elim (Option-cases (strstr cs lit)) [
    | inl gone ↦ ground (arith, e, not_here, gone)
    | inr (j, there) ↦ ground (arith, e, not_here, there, strstr-length lit cs j)
  ]
]

find_end-length : (s : Text) (n : ℕ) → find_end s ≡ some n → n ≤ length s
unfolding find_end
find_end-length s n e = elim (Option-cases (strstr s (13 ∷ 10 ∷ 13 ∷ 10 ∷ []))) [
  | inr (i, a) ↦ ground (arith, e, a, strstr-length (13 ∷ 10 ∷ 13 ∷ 10 ∷ []) s i)
  | inl a ↦ elim (Option-cases (strstr s (10 ∷ 10 ∷ []))) [
    | inr (i, b) ↦ ground (arith, e, a, b, strstr-length (10 ∷ 10 ∷ []) s i)
    | inl b ↦ ground (arith, e, a, b)
  ]
]

-- However a header arrives in pieces, none of them empty and the first byte not blank, it is the
-- bytes in order, up to the piece that brings the end that the search finds; what that piece has
-- beyond the end is the start of the body. The bytes before that piece are fewer than 8192, and the
-- end lies within the bytes.
pub http_recv_hdr-pieces :
    (ts : List Text) (x : Text) (n : ℕ) (rs : List Recv)
    → NoneEmpty ts
    → (length x == 0) ≡ false
    → isspace (get_or (join ts ++ x) 0 0) ≡ false
    → find_end (join ts) ≡ none
    → find_end (join ts ++ x) ≡ some n
    → length (join ts) < max_hdr_len
    → (http_recv_hdr (map bytes ts ++ bytes x ∷ rs)
        ≡ ended
            (inr (record {
              recvd = join ts ++ x;
              hdr_len = n;
              cnt_len = 0;
              body = drop n (join ts ++ x);
            }))
            rs)
      × (n ≤ length (join ts ++ x))
unfolding http_recv_hdr
http_recv_hdr-pieces ts x n rs ne some_x black unended closed room = (
  open_pieces (join ts) x (bytes x ∷ rs) ts [] unended (omega (arith, room)) black ne refl
      ∙ last_piece (join ts) x n rs some_x closed room black,
  find_end-length (join ts ++ x) n closed,
)

-- A header that has no end in its first 8192 bytes is refused, however they arrive in pieces that
-- are not empty, the first byte not blank.
pub http_recv_hdr-exceeded :
    (ts : List Text) (rs : List Recv)
    → NoneEmpty ts
    → isspace (get_or (join ts) 0 0) ≡ false
    → find_end (join ts) ≡ none
    → length (join ts) ≡ max_hdr_len
    → http_recv_hdr (map bytes ts ++ rs) ≡ ended (inl max_hdr_exc) rs
unfolding http_recv_hdr
http_recv_hdr-exceeded ts rs ne black unended full =
    open_pieces (join ts) [] rs ts [] unended (omega (arith, full))
      (rw (append-nil (join ts)) black) ne refl
    ∙ at_limit (join ts) rs (ground (arith, full))

blank_loop-blanks :
    (s t : Text) (i ret : ℕ)
    → AllPass isspace s
    → isspace (get_or t 0 0) ≡ false
    → 2 * length s + i ≤ ret + 2
    → blank_loop (s ++ t) i ret ≡ i + length s
unfolding blank_loop
blank_loop-blanks [] [] i ret a e l = omega arith
blank_loop-blanks [] (c ∷ cs) i ret a e l = ground (arith, e)
blank_loop-blanks (x ∷ xs) t i ret (blank, a) e l =
    let reached : leb i ret ≡ true = ground (arith, l) in
    rw (reached, blank)
      (blank_loop-blanks xs t (i + 1) (ret - 1) a e (omega (arith, l)) ∙ omega arith)

-- The blanks before a header are dropped if they are at most two more than the other bytes that come
-- with them.
skip_blanks-blanks :
    (s t : Text)
    → AllPass isspace s
    → isspace (get_or t 0 0) ≡ false
    → length s ≤ length t + 2
    → skip_blanks (s ++ t) ≡ t
unfolding skip_blanks
skip_blanks-blanks s t a e l =
    ap (λ n. drop n (s ++ t))
      (blank_loop-blanks s t 0 (length (s ++ t)) a e (omega (arith, l, length-append s t)))
    ∙ ap (λ n. drop n (s ++ t)) {y = length s} (omega arith)
    ∙ drop-append s t
