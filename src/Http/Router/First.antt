-- ===== src/Http/Router/First.antt =====
-- src/router.c: the loop over the routes and the table of groups that it hands on.
use memqueue.Base.{
  zero, suc, ◌+◌, ◌-◌, ◌*◌, ◌<◌, ltb, ap, arith, ℕ, Bool, true, false, List, [], ◌∷◌, ◌++◌, Option,
  none, some, Text, str_eq, ◌≡◌, ◌⊎◌, inl, inr, Bool-cases, ◌∙◌, if◌then◌else◌, ok, fault,
  use_after_free, refl,
}
use memqueue.Base.Int.{ℤ, negsuc}
use memqueue.Hash.{Hash, h_init}
use memqueue.Http.Request.{take, drop}
use memqueue.Http.Path.Printed.{insert_all}
use memqueue.Http.Response.{Cli, http_set_respcode}
use memqueue.Http.Router.{
  Route, declined, is_some, cut, captures, route_args, route_loop, http_route_handle_request,
}

List-cases : {A : Type 0} (l : List A) → (l ≡ []) ⊎ ((x : A) × (xs : List A) × (l ≡ x ∷ xs))
List-cases [] = inl refl
List-cases (x ∷ xs) = inr (x, xs, refl)

if-elim :
    {A : Type 0} (b : Bool) (x y : A) → (elim b [ true ↦ x | false ↦ y ]) ≡ (if b then x else y)
if-elim true x y = refl
if-elim false x y = refl

-- What stands in the path between the places of a group.
abbrev slice : ℕ → ℕ → Text → Text
slice from to path = take (to - from) (drop from path)

-- Each named group with its text.
abbrev groups_of : List (ℕ × Text) → (ℕ → ℕ) → Text → List (Text × Text)
groups_of [] ovector path = []
groups_of ((n, name) ∷ names) ovector path =
    (name, slice (ovector (2 * n)) (ovector (2 * n + 1)) path) ∷ groups_of names ovector path

-- The table that a route's callback is given: none where the route has no named groups.
abbrev pub table_of : List (ℕ × Text) → (ℕ → ℕ) → Text → Option (Hash Text)
table_of [] ovector path = none
table_of (n ∷ names) ovector path =
    some (insert_all (groups_of (n ∷ names) ovector path) (h_init 128))

-- The groups' places are among the 30 of the output vector.
abbrev pub AllPlaced : List (ℕ × Text) → Type 0
AllPlaced [] = Unit
AllPlaced ((n, name) ∷ names) = (n < 15) × AllPlaced names

take_nil : (n : ℕ) → take n [] ≡ []
take_nil zero = refl
take_nil (suc n) = refl

cut_lem : (from to : ℕ) (path : Text) → cut from to path ≡ slice from to path
unfolding cut
cut_lem zero zero [] = refl
cut_lem zero (suc to) [] = let e = take_nil (suc to - 0) in rw e refl
cut_lem (suc from) to [] = let e = take_nil (to - suc from) in rw e refl
cut_lem zero zero (c ∷ cs) = refl
cut_lem zero (suc to) (c ∷ cs) =
    let some_to : ltb 0 (suc to) ≡ true = ground arith in
    let less : suc to - 1 ≡ to = omega arith in
    let whole : suc to - 0 ≡ suc to = omega arith in
    let all : to - 0 ≡ to = omega arith in
    rw (some_to, less, whole) (ap (λ l. c ∷ l) (cut_lem 0 to cs ∙ rw all refl))
cut_lem (suc from) to (c ∷ cs) =
    let some_from : ltb 0 (suc from) ≡ true = ground arith in
    let less : suc from - 1 ≡ from = omega arith in
    let same : to - 1 - from ≡ to - suc from = omega arith in
    rw (some_from, less) (cut_lem from (to - 1) cs ∙ rw same refl)

captures_lem :
    (names : List (ℕ × Text)) (ovector : ℕ → ℕ) (path : Text) (h : Hash Text)
    → AllPlaced names
    → captures names ovector path h ≡ ok (insert_all (groups_of names ovector path) h)
unfolding captures
captures_lem [] ovector path h a = refl
captures_lem ((n, name) ∷ names) ovector path h (l, a) =
    let placed : ltb (2 * n + 1) 30 ≡ true = ground (arith, l) in
    rw (placed, cut_lem (ovector (2 * n)) (ovector (2 * n + 1)) path)
      (captures_lem names ovector path _ a)

module _ {Re : Type 0} (exec : Re → Text → Option (ℕ → ℕ)) (name_table : Re → List (ℕ × Text))
    (method path : Text) where
  -- The loop goes past the route.
  abbrev Passes : Route Re → Type 0
  Passes r = (str_eq r.method method ≡ false) ⊎ (exec r.re path ≡ none)

  abbrev pub AllPass : List (Route Re) → Type 0
  AllPass [] = Unit
  AllPass (r ∷ rs) = Passes r × AllPass rs

  -- The route is for the request.
  abbrev pub Matches : Route Re → (ℕ → ℕ) → Type 0
  Matches r ovector = (str_eq r.method method ≡ true) × (exec r.re path ≡ some ovector)

  route_loop-pass :
      (matched freed : Bool) (r : Route Re) (rs : List (Route Re)) (cli : Cli)
      → Passes r
      → route_loop exec name_table matched freed method path (r ∷ rs) cli
        ≡ route_loop exec name_table matched freed method path rs cli
  unfolding route_loop
  route_loop-pass matched freed r rs cli (inl e) = rw (route_loop, e) refl
  route_loop-pass matched freed r rs cli (inr e) = elim (Bool-cases (str_eq r.method method)) [
    | inl m ↦ rw (route_loop, m, e) refl
    | inr m ↦ rw (route_loop, m) refl
  ]

  route_loop-append :
      (matched freed : Bool) (rs rest : List (Route Re)) (cli : Cli)
      → AllPass rs
      → route_loop exec name_table matched freed method path (rs ++ rest) cli
        ≡ route_loop exec name_table matched freed method path rest cli
  route_loop-append matched freed [] rest cli a = refl
  route_loop-append matched freed (r ∷ rs) rest cli (p, a) =
      route_loop-pass matched freed r (rs ++ rest) cli p
      ∙ route_loop-append matched freed rs rest cli a

  route_loop-none :
      (rs : List (Route Re)) (cli : Cli)
      → AllPass rs
      → route_loop exec name_table false false method path rs cli
        ≡ ok (negsuc 0, http_set_respcode 404 cli)
  unfolding route_loop
  route_loop-none [] cli a = refl
  route_loop-none (r ∷ rs) cli (p, a) =
      route_loop-pass false false r rs cli p ∙ route_loop-none rs cli a

  route_loop-match :
      (matched freed : Bool) (r : Route Re) (rest : List (Route Re)) (ovector : ℕ → ℕ)
      (h : Option (Hash Text)) (cli cli' : Cli) (ret : ℤ)
      → Matches r ovector
      → route_args exec name_table freed r ovector path ≡ ok h
      → r.cb h cli ≡ ok (ret, cli')
      → route_loop exec name_table matched freed method path (r ∷ rest) cli ≡ (
          if declined ret
          then route_loop exec name_table true (is_some h) method path rest cli'
          else ok (ret, cli'))
  unfolding route_loop
  route_loop-match matched freed r rest ovector h cli cli' ret (m, e) a c =
      rw (route_loop, m, e, a, c) (if-elim (declined ret) _ _)

  -- Where no route is for the request, the result is -1 and the response has code 404 if none was set.
  http_route_handle_request-none :
      (rs : List (Route Re)) (cli : Cli)
      → AllPass rs
      → http_route_handle_request exec name_table method path rs cli
        ≡ ok (negsuc 0, http_set_respcode 404 cli)
  unfolding http_route_handle_request
  http_route_handle_request-none rs cli a = route_loop-none rs cli a

  route_args_lem :
      (r : Route Re) (ovector : ℕ → ℕ)
      → AllPlaced (name_table r.re)
      → route_args exec name_table false r ovector path
        ≡ ok (table_of (name_table r.re) ovector path)
  unfolding route_args
  route_args_lem r ovector a = elim (List-cases (name_table r.re)) [
    | inl e ↦ rw (route_args, e) refl
    | inr (n, names, e) ↦
        rw (route_args, e, captures_lem (n ∷ names) ovector path (h_init 128) (rw e at a)) refl
  ]

  -- The first route for the request answers it, whichever routes follow, unless it declines: the
  -- result is its callback's. That is given a table of the named groups, each name with what stands in
  -- the path between the group's two places, a name that comes again keeping its first text, or none
  -- where the route has no named groups. The groups' places are within the output vector.
  pub http_route_handle_request-first :
      (rs rest : List (Route Re)) (r : Route Re) (ovector : ℕ → ℕ) (cli cli' : Cli) (ret : ℤ)
      → AllPass rs
      → Matches r ovector
      → AllPlaced (name_table r.re)
      → r.cb (table_of (name_table r.re) ovector path) cli ≡ ok (ret, cli')
      → declined ret ≡ false
      → http_route_handle_request exec name_table method path (rs ++ r ∷ rest) cli ≡ ok (ret, cli')
  unfolding http_route_handle_request
  http_route_handle_request-first rs rest r ovector cli cli' ret p m a c d =
      route_loop-append false false rs (r ∷ rest) cli p
      ∙ route_loop-match false false r rest ovector (table_of (name_table r.re) ovector path) cli
          cli' ret m (route_args_lem r ovector a) c
      ∙ rw d refl

  route_loop-stale :
      (s : Route Re) (rest : List (Route Re)) (ovector : ℕ → ℕ) (cli : Cli)
      → Matches s ovector
      → name_table s.re ≡ []
      → route_loop exec name_table true true method path (s ∷ rest) cli ≡ fault use_after_free
  unfolding route_loop route_args
  route_loop-stale s rest ovector cli (m, x) e = rw (route_loop, m, x, route_args, e) refl

  -- When the first route for the request has named groups and declines, and the next one for the
  -- request has none, the table of the first, which is freed, is handed on and read.
  pub http_route_handle_request-stale :
      (rs ss rest : List (Route Re)) (r s : Route Re) (ovector ovector' : ℕ → ℕ) (h : Hash Text)
      (cli cli' : Cli)
      → AllPass rs
      → Matches r ovector
      → route_args exec name_table false r ovector path ≡ ok (some h)
      → r.cb (some h) cli ≡ ok (negsuc 1, cli')
      → AllPass ss
      → Matches s ovector'
      → name_table s.re ≡ []
      → http_route_handle_request exec name_table method path (rs ++ r ∷ (ss ++ s ∷ rest)) cli
        ≡ fault use_after_free
  unfolding http_route_handle_request
  http_route_handle_request-stale rs ss rest r s ovector ovector' h cli cli' p m a c q n e =
      route_loop-append false false rs (r ∷ (ss ++ s ∷ rest)) cli p
      ∙ route_loop-match false false r (ss ++ s ∷ rest) ovector (some h) cli cli' (negsuc 1) m a c
      ∙ route_loop-append true true ss (s ∷ rest) cli' q
      ∙ route_loop-stale s rest ovector' cli' n e
