-- ===== src/Http/Path.antt =====
-- src/http_impl.c, `http_set_path`: the path and the arguments of the URI. The bytes of
-- `query_string` after `strtok_r` has written to them are not modelled.
pub mod Printed
use memqueue.Base.{List, [], ◌∷◌, none, some, Text}
use memqueue.Hash.{Hash, h_insert}
use memqueue.Http.Str.{strchr, strtok}

-- The part of `struct http_req` that the function writes.
pub record Target : Type 0 where
  pub path : Text
  pub query_string_args : Hash Text

-- One token: a value without '=' is passed over.
unfoldable pub add_arg : Text → Hash Text → Hash Text
unfolding strchr
add_arg value h = elim (strchr 61 value) [ none ↦ h | some (key, sep2) ↦ (h_insert h key sep2).0 ]

unfoldable pub add_args : List Text → Hash Text → Hash Text
unfolding add_arg
add_args [] h = h
add_args (value ∷ values) h = add_args values (add_arg value h)

unfoldable pub http_set_path : Text → Hash Text → Target
unfolding strchr strtok add_args
http_set_path uri args = elim (strchr 63 uri) [
  | none ↦ record { path = uri; query_string_args = args }
  | some (path, query_string) ↦ record {
    path = path;
    query_string_args = add_args (strtok 38 query_string) args;
  }
]
