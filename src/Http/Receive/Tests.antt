-- ===== src/Http/Receive/Tests.antt =====
-- A request that arrives in pieces.
use memqueue.Base.{
  ℕ, zero, suc, get_or, true, ◌==◌, ◌∙◌, ◌≡◌, ◌≤◌, refl, [], ◌∷◌, ◌++◌, none, some, Text, codes,
  length, length-replicate, replicate, map, false, inl, inr, ok, arith, ap,
}
use mathlib.Core.List.{append-nil}
use memqueue.Http.Request.{drop, max_hdr_exc}
use memqueue.Http.Str.{isspace}
use memqueue.Http.Receive.{bytes, failed, ended, find_end, strstr, starts, http_recv_hdr}
use memqueue.Http.Receive.Header.{join, http_recv_hdr-pieces, http_recv_hdr-exceeded}
use memqueue.Http.Receive.Body.{http_recv_exact, http_recv_exact-pieces}

abbrev start : Text
start = codes "GET / HTTP/1.0" ++ 13 ∷ []

-- The end of the header and the start of a body.
abbrev finish : Text
finish = 10 ∷ 13 ∷ 10 ∷ codes "ab"

unended : find_end start ≡ none
unfolding find_end strstr starts
unended = refl

closed : find_end (start ++ finish) ≡ some 18
unfolding find_end strstr starts
closed = refl

black : isspace (get_or (start ++ finish) 0 0) ≡ false
unfolding isspace
black = refl

http_recv_hdr-pieces_example :
    (http_recv_hdr (map bytes (start ∷ []) ++ bytes finish ∷ failed ∷ [])
      ≡ ended
          (inr (record {
            recvd = join (start ∷ []) ++ finish;
            hdr_len = 18;
            cnt_len = 0;
            body = drop 18 (join (start ∷ []) ++ finish);
          }))
          (failed ∷ []))
    × (18 ≤ length (join (start ∷ []) ++ finish))
http_recv_hdr-pieces_example =
    http_recv_hdr-pieces (start ∷ []) finish 18 (failed ∷ []) (refl, tt) refl black unended closed
      (omega arith)

never : (n l : ℕ) (ls : Text) → (l == 65) ≡ false → strstr (replicate n 65) (l ∷ ls) ≡ none
unfolding strstr starts
never zero l ls e = refl
never (suc n) l ls e = ground (arith, e, never n l ls)

long : (n : ℕ) → find_end (replicate n 65) ≡ none
unfolding find_end
long n = rw (find_end, never n 13 (10 ∷ 13 ∷ 10 ∷ []) refl, never n 10 (10 ∷ []) refl) refl

abbrev too_long : Text
too_long = replicate 8192 65

letter : isspace 65 ≡ false
unfolding isspace
letter = refl

http_recv_hdr-exceeded_example :
    http_recv_hdr (map bytes (too_long ∷ []) ++ []) ≡ ended (inl max_hdr_exc) []
http_recv_hdr-exceeded_example =
    http_recv_hdr-exceeded (too_long ∷ []) [] (refl, tt) letter
      (ap find_end (append-nil too_long) ∙ long 8192)
      (ap length (append-nil too_long) ∙ length-replicate {A = ℕ} 8192 65)

http_recv_exact-pieces_example :
    http_recv_exact 5 (codes "ab") (map bytes (codes "c" ∷ []) ++ bytes (codes "def") ∷ [])
    ≡ ended
        (ok (record {
          body = some (codes "ab" ++ join (codes "c" ∷ []) ++ codes "def");
          body_len = length (codes "ab" ++ join (codes "c" ∷ []) ++ codes "def");
          success = true;
        }))
        []
http_recv_exact-pieces_example =
    http_recv_exact-pieces 5 (codes "c" ∷ []) (codes "def") (codes "ab") [] (refl, tt) refl
      (omega arith) (omega arith)
