-- ===== src/Http/Handle/Tests.antt =====
-- A request that arrives in two pieces, and a chunked body.
use memqueue.Base.{
  ◌≡◌, ◌≢◌, refl, true, false, not, [], ◌∷◌, ◌++◌, none, some, Text, codes, ok, fault, null_pointer,
  length, map, get_or, ◌⊎◌, arith,
}
use memqueue.Base.Int.{ℤ, pos}
use memqueue.Hash.{h_init}
use memqueue.Http.Str.{isspace, is_cr_or_lf, http_strcasechr}
use memqueue.Http.Request.{get, post, inv_host, drop}
use memqueue.Http.Request.Scan.{AllPass}
use memqueue.Http.Request.Headers.{Parsed}
use memqueue.Http.Receive.{bytes, failed, waiting, ended, find_end, strstr, starts}
use memqueue.Http.Receive.Header.{join}
use memqueue.Http.Receive.Chunked.{unchanged, http_recvbody, http_recvbody-chunked}
use memqueue.Http.Path.Printed.{insert_all}
use memqueue.Http.Handle.{Handled, refused, accepted, http_handle_cli_rd}
use memqueue.Http.Handle.Printed.{http_handle_cli_rd-print}

abbrev start : Text
start = codes "GET /q?a=1 HTTP/1.0" ++ 13 ∷ []

-- The end of the header and two bytes more.
abbrev finish : Text
finish = 10 ∷ 13 ∷ 10 ∷ codes "ab"

-- In place of the C library's `strtol`.
abbrev strtol : Text → ℤ
strtol t = pos (length t)

abbrev client : Parsed
client = record {
  req = record {
    method = none;
    method_str = [];
    port = 0;
    uri = none;
    http11 = false;
    hdr = [];
    hdr_start = 0;
  };
  buffer = [];
  hdrs = h_init 128;
  cnt_len = 0;
  chunked = false;
  host = none;
}

unended : find_end start ≡ none
unfolding find_end strstr starts
unended = refl

closed : find_end (start ++ finish) ≡ some 23
unfolding find_end strstr starts
closed = refl

black : isspace (get_or (start ++ finish) 0 0) ≡ false
unfolding isspace
black = refl

word : AllPass (λ y. not (isspace y)) (codes "/q?a=1")
unfolding isspace
word = (refl, (refl, (refl, (refl, (refl, (refl, tt))))))

eol : is_cr_or_lf 13 ≡ true
unfolding is_cr_or_lf
eol = refl

no_post : get ≢ post
no_post e = cc

http_handle_cli_rd-print_example :
    (p : Parsed) × (r : Handled) × (http_handle_cli_rd waiting strtol []
        (map bytes (start ∷ []) ++ bytes finish ∷ failed ∷ [])
        client
      ≡ ended (ok r) (failed ∷ []))
    × ((r ≡ refused inv_host p)
        ⊎ (r
            ≡ accepted p
                (record {
                  path = codes "/q";
                  query_string_args = insert_all ((codes "a", codes "1") ∷ []) (h_init 128);
                })
                (unchanged (drop 23 (join (start ∷ []) ++ finish)))))
    × (p.req.method ≡ some get)
    × (p.req.http11 ≡ false)
http_handle_cli_rd-print_example =
    http_handle_cli_rd-print waiting strtol [] client (start ∷ []) finish 23 (failed ∷ []) get
      (codes "q") (codes "a", codes "1") [] false 13 (10 ∷ 13 ∷ 10 ∷ []) (refl, tt) refl black
      unended closed (omega arith) refl refl eol word (refl, (refl, tt))
      ((refl, tt), (refl, tt), (refl, tt), tt) no_post

http_recvbody-chunked_example :
    http_recvbody waiting true 0 (codes "5" ++ 10 ∷ codes "hel") (bytes (codes "lo") ∷ [])
    ≡ ended
        (elim (http_strcasechr (codes "5" ++ 10 ∷ codes "hel") 10) [
          | none ↦ fault null_pointer
          | some _ ↦ ok (unchanged (codes "5" ++ 10 ∷ codes "hel"))
        ])
        (bytes (codes "lo") ∷ [])
http_recvbody-chunked_example =
    http_recvbody-chunked waiting 0 (codes "5" ++ 10 ∷ codes "hel") (bytes (codes "lo") ∷ [])
