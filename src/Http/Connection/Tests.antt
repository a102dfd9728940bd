-- ===== src/Http/Connection/Tests.antt =====
-- A connection with two requests.
use memqueue.Base.{
  ℕ, ◌+◌, ◌≡◌, refl, inr, true, false, [], ◌∷◌, ◌++◌, some, Text, codes, length, if◌then◌else◌, Run,
  ok, ◌>>=◌, map,
}
use memqueue.Base.Int.{ℤ, pos}
use memqueue.Hash.{h_init}
use memqueue.Http.Request.{inv_method}
use memqueue.Http.Response.{Cli, hdr_begin, http_respond}
use memqueue.Http.Response.Once.{respond-Done}
use memqueue.Http.Connection.{closed, is_answered, route, http_lt_cli_rd}
use memqueue.Http.Connection.Answered.{Answering, good, http_lt_cli_rd-answers}

-- In place of the C library's `snprintf`.
abbrev to_decimal : ℕ → Text
to_decimal n = codes "1"

abbrev fresh : Cli
fresh = record {
  respcode = 0;
  respcode_int = [];
  respcode_str = [];
  hdrs = h_init 128;
  body = [];
  body_len = 0;
  state = hdr_begin;
  http11 = true;
  sent = [];
}

-- A router that answers each request itself.
abbrev router : Cli → Run (ℤ × Cli)
router c = do c' ← http_respond to_decimal 200 (codes "{}") c; ok (pos 0, c')

router-Answering : Answering to_decimal (some router)
unfolding route
router-Answering c r =
    let (c', run, begun, d) = respond-Done to_decimal 200 (codes "{}") c r in
    (pos 0, c', rw run refl, refl, inr (begun, d))

http_lt_cli_rd-answers_example :
    (c' : Cli) × (http_lt_cli_rd to_decimal
        (some router)
        (map good (true ∷ false ∷ []) ++ record { err = some inv_method; http11 = false } ∷ [])
        fresh
      ≡ ok (closed c'))
    × (length c'.sent
        ≡ length fresh.sent
          + length (true ∷ false ∷ [])
          + (if is_answered inv_method then 1 else 0))
http_lt_cli_rd-answers_example =
    http_lt_cli_rd-answers to_decimal (some router) (true ∷ false ∷ []) inv_method false [] fresh
      router-Answering refl
