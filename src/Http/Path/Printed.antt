-- ===== src/Http/Path/Printed.antt =====
-- `http_set_path` of src/http_impl.c against the printing of a path and its arguments.
use memqueue.Base.{ℕ, ◌≡◌, refl, ap, ◌∙◌, false, List, [], ◌∷◌, ◌++◌, some, Text, ◌==◌, arith}
use memqueue.Hash.{Hash, h_insert}
use memqueue.Http.Str.{strchr, strtok, token, non_empty}
use memqueue.Http.Path.{add_arg, add_args, http_set_path}

-- A text without the byte `c`.
abbrev pub Free : ℕ → Text → Type 0
Free c [] = Unit
Free c (x ∷ xs) = ((x == c) ≡ false) × Free c xs

-- `k=v`, and `k=v&k=v&k=v`
abbrev pub print_arg : Text × Text → Text
print_arg (k, v) = k ++ 61 ∷ v

abbrev pub print_args : Text × Text → List (Text × Text) → Text
print_args a [] = print_arg a
print_args a (b ∷ bs) = print_arg a ++ 38 ∷ print_args b bs

-- Names without '=' and '&', and values without '&'.
abbrev pub Plain : List (Text × Text) → Type 0
Plain [] = Unit
Plain ((k, v) ∷ as') = Free 61 k × Free 38 k × Free 38 v × Plain as'

abbrev pub insert_all : List (Text × Text) → Hash Text → Hash Text
insert_all [] h = h
insert_all ((k, v) ∷ as') h = insert_all as' (h_insert h k v).0

strchr-append : (c : ℕ) (a b : Text) → Free c a → strchr c (a ++ c ∷ b) ≡ some (a, b)
unfolding strchr
strchr-append c [] b f = ground arith
strchr-append c (x ∷ xs) b (n, f) = rw (n, strchr-append c xs b f) refl

token-append : (c : ℕ) (a b : Text) → Free c a → token c (a ++ c ∷ b) ≡ (a, strtok c b)
unfolding token strtok
token-append c [] b f = ground arith
token-append c (x ∷ xs) b (n, f) = rw (n, token-append c xs b f) refl

token_whole : (c : ℕ) (a : Text) → Free c a → token c a ≡ (a, [])
unfolding token
token_whole c [] f = refl
token_whole c (x ∷ xs) (n, f) = rw (n, token_whole c xs f) refl

Free-append : (c : ℕ) (a b : Text) → Free c a → Free c b → Free c (a ++ b)
Free-append c [] b f g = g
Free-append c (x ∷ xs) b (n, f) g = (n, Free-append c xs b f g)

arg-Free : (k v : Text) → Free 38 k → Free 38 v → Free 38 (print_arg (k, v))
arg-Free k v f g = Free-append 38 k (61 ∷ v) f (refl, g)

some_arg : (k v : Text) (ts : List Text) → non_empty (print_arg (k, v)) ts ≡ print_arg (k, v) ∷ ts
unfolding non_empty
some_arg [] v ts = refl
some_arg (x ∷ xs) v ts = refl

add_arg_lem :
    (k v : Text) (h : Hash Text) → Free 61 k → add_arg (print_arg (k, v)) h ≡ (h_insert h k v).0
unfolding add_arg
add_arg_lem k v h f = rw (add_arg, strchr-append 61 k v f) refl

add_args_lem :
    (a : Text × Text) (as' : List (Text × Text)) (h : Hash Text)
    → Plain (a ∷ as')
    → add_args (strtok 38 (print_args a as')) h ≡ insert_all (a ∷ as') h
unfolding add_args strtok
add_args_lem (k, v) [] h (f, g, g', _) =
    rw (token_whole 38 (print_arg (k, v)) (arg-Free k v g g'), some_arg k v [])
      (add_arg_lem k v h f)
add_args_lem (k, v) (b ∷ bs) h (f, g, g', ps) =
    rw
      (
        token-append 38 (print_arg (k, v)) (print_args b bs) (arg-Free k v g g'),
        some_arg k v (strtok 38 (print_args b bs)),
      )
      (ap (add_args (strtok 38 (print_args b bs))) (add_arg_lem k v h f)
        ∙ add_args_lem b bs (h_insert h k v).0 ps)

-- A path without '?', printed with arguments whose names have no '=' and no '&' and whose values have
-- no '&', is read back as the path, and the arguments are put into the table in their order.
pub http_set_path-print :
    (path : Text) (a : Text × Text) (as' : List (Text × Text)) (h : Hash Text)
    → Free 63 path
    → Plain (a ∷ as')
    → http_set_path (path ++ 63 ∷ print_args a as') h
      ≡ record { path = path; query_string_args = insert_all (a ∷ as') h }
unfolding http_set_path
http_set_path-print path a as' h f p =
    rw (http_set_path, strchr-append 63 path (print_args a as') f)
      (ap (λ t. record { path = path; query_string_args = t }) (add_args_lem a as' h p))
