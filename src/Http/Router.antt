-- ===== src/Http/Router.antt =====
-- src/router.c: the routes and the dispatch of a request. PCRE is a parameter: `compile` for
-- `pcre_compile`, `exec` for `pcre_exec` with the output vector, `name_table` for what
-- `pcre_fullinfo` tells of the named groups. A callback works on the client, as the rest does.
pub mod First
use memqueue.Base.{
  ℕ, ◌+◌, ◌-◌, ◌*◌, Bool, true, false, List, [], ◌∷◌, Option, none, some, Text, str_eq, ltb, ◌==◌,
  if◌then◌else◌, Run, ok, fault, use_after_free, out_of_bounds, guard, ◌>>=◌, ◌>>◌,
}
use memqueue.Base.Int.{ℤ, pos, negsuc}
use memqueue.Hash.{Hash, h_init, h_insert}
use memqueue.Http.Response.{Cli, http_set_respcode}

-- `http_route_t`
pub record Route (Re : Type 0) : Type 0 where
  pub path : Text
  pub method : Text
  pub cb : Option (Hash Text) → Cli → Run (ℤ × Cli)
  pub re : Re

module _ {Re : Type 0} where
  -- The new route stands first; a path that does not compile is not added.
  unfoldable pub http_route_on :
      (Text → Option Re)
      → Text
      → Text
      → (Option (Hash Text) → Cli → Run (ℤ × Cli))
      → List (Route Re)
      → ℤ × List (Route Re)
  http_route_on compile method path cb routes = elim (compile path) [
    | none ↦ (negsuc 0, routes)
    | some re ↦ (pos 0, record { path = path; method = method; cb = cb; re = re } ∷ routes)
  ]

-- `strndup(path + from, to - from)`
unfoldable pub cut : ℕ → ℕ → Text → Text
cut from to [] = []
cut from to (c ∷ cs) =
    let rest = cut (from - 1) (to - 1) cs in
    if ltb 0 from then rest else (if ltb 0 to then c ∷ rest else [])

-- The loop over the named groups: the group's number and its name.
unfoldable pub captures : List (ℕ × Text) → (ℕ → ℕ) → Text → Hash Text → Run (Hash Text)
unfolding cut
captures [] ovector path h = ok h
captures ((n, name) ∷ names) ovector path h =
    guard (ltb (2 * n + 1) 30) out_of_bounds
    >> captures names ovector path
        (h_insert h name (cut (ovector (2 * n)) (ovector (2 * n + 1)) path)).0

abbrev pub is_some : Option (Hash Text) → Bool
is_some none = false
is_some (some _) = true

-- `ret == -2`
abbrev pub declined : ℤ → Bool
declined (pos _) = false
declined (negsuc n) = n == 1

module _ {Re : Type 0} (exec : Re → Text → Option (ℕ → ℕ)) (name_table : Re → List (ℕ × Text)) where
  -- `h` for a route: a table of its own where it has named groups, else what the variable holds,
  -- which is NULL, or with `freed` the table of an earlier route, that `h_next(h)` then reads.
  unfoldable pub route_args : Bool → Route Re → (ℕ → ℕ) → Text → Run (Option (Hash Text))
  unfolding captures
  route_args freed route ovector path = elim (name_table route.re) [
    | [] ↦ (if freed then fault use_after_free else ok none)
    | n ∷ ns ↦ do h ← captures (n ∷ ns) ovector path (h_init 128); ok (some h)
  ]

  -- `LIST_FOREACH` with the variables `matched` and, for `h`, `freed`.
  unfoldable pub route_loop : Bool → Bool → Text → Text → List (Route Re) → Cli → Run (ℤ × Cli)
  unfolding route_args http_set_respcode
  route_loop matched freed method path [] cli =
      if matched then ok (pos 0, cli) else ok (negsuc 0, http_set_respcode 404 cli)
  route_loop matched freed method path (route ∷ routes) cli = elim (str_eq route.method method) [
    | false ↦ route_loop matched freed method path routes cli
    | true ↦ elim (exec route.re path) [
      | none ↦ route_loop matched freed method path routes cli
      | some ovector ↦ do
        h ← route_args freed route ovector path
        (ret, cli') ← route.cb h cli
        elim (declined ret) [
          | true ↦ route_loop true (is_some h) method path routes cli'
          | false ↦ ok (ret, cli')
        ]
    ]
  ]

  unfoldable pub http_route_handle_request : Text → Text → List (Route Re) → Cli → Run (ℤ × Cli)
  unfolding route_loop
  http_route_handle_request method path routes cli = route_loop false false method path routes cli
