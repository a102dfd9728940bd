-- ===== src/Http/Receive/Body.antt =====
-- src/http_impl.c: the body of a request, `http_recv_exact`. A failure of realloc is left out.
use memqueue.Base.{
  ℕ, zero, suc, ◌+◌, ◌-◌, ◌%◌, ◌^◌, ◌<◌, ◌≤◌, ◌≡◌, refl, ap, sym, ◌∙◌, Bool, true, false, List, [],
  ◌∷◌, ◌++◌, Option, none, some, Text, Run, ok, fault, out_of_bounds, length, length-append, ltb,
  ◌==◌, if◌then◌else◌, arith, map,
}
use mathlib.Core.List.{append_assoc, append-nil}
use memqueue.Http.Request.{drop, take}
use memqueue.Http.Receive.{Recv, bytes, failed, timed_out, Received, waiting, ended}
use memqueue.Http.Receive.Header.{join, NoneEmpty}

-- `body`, which is NULL after an error, and `body_len`. The result is 0 or -1; no caller looks at it.
pub record Body : Type 0 where
  pub body : Option Text
  pub body_len : ℕ
  pub success : Bool

-- A receive to `body + n`. The bytes past the end of what is there are not initialised.
unfoldable pub write_at : ℕ → Text → Text → Text
write_at n t body = take n body ++ t ++ drop (n + length t) body

-- The loop, where `recvd` is counted in 64 bits: the -2 of a timeout is added to it. A receive past
-- what is there is a fault.
unfoldable pub recv_exact_loop : ℕ → Text → ℕ → List Recv → Received (Run Body)
unfolding write_at
recv_exact_loop cnt_len body recvd [] =
    if ltb recvd cnt_len
    then waiting
    else ended (ok (record { body = some body; body_len = recvd; success = true })) []
recv_exact_loop cnt_len body recvd (failed ∷ rs) =
    if ltb recvd cnt_len
    then ended (ok (record { body = none; body_len = recvd; success = false })) rs
    else ended (ok (record { body = some body; body_len = recvd; success = true })) (failed ∷ rs)
recv_exact_loop cnt_len body recvd (timed_out ∷ rs) =
    let rest = recv_exact_loop cnt_len body ((recvd + (2 ^ 64 - 2)) % 2 ^ 64) rs in
    if ltb recvd cnt_len
    then rest
    else ended (ok (record { body = some body; body_len = recvd; success = true })) (timed_out ∷ rs)
recv_exact_loop cnt_len body recvd (bytes t ∷ rs) =
    let rest = recv_exact_loop cnt_len (write_at recvd t body) (recvd + length t) rs in
    if ltb recvd cnt_len
    then (if ltb (length body) recvd
        then ended (fault out_of_bounds) rs
        else (if length t == 0
            then ended (ok (record { body = some body; body_len = recvd; success = true })) rs
            else rest))
    else ended (ok (record { body = some body; body_len = recvd; success = true })) (bytes t ∷ rs)

-- `nolen` is never set.
unfoldable pub http_recv_exact : ℕ → Text → List Recv → Received (Run Body)
unfolding recv_exact_loop
http_recv_exact cnt_len body rs =
    if length body == cnt_len
    then ended (ok (record { body = some body; body_len = length body; success = true })) rs
    else recv_exact_loop cnt_len body (length body) rs

drop_none : (k : ℕ) → drop k [] ≡ []
drop_none zero = refl
drop_none (suc k) = refl

take_all : (s : Text) → take (length s) s ≡ s
take_all [] = refl
take_all (x ∷ xs) = ap (λ r. x ∷ r) (take_all xs)

drop_past : (s : Text) (k : ℕ) → drop (length s + k) s ≡ []
drop_past [] k = ap (λ n. drop n []) {y = k} (omega arith) ∙ drop_none k
drop_past (x ∷ xs) k =
    ap (λ n. drop n (x ∷ xs)) {y = suc (length xs + k)} (omega arith) ∙ drop_past xs k

write_at_end : (t body : Text) → write_at (length body) t body ≡ body ++ t
unfolding write_at
write_at_end t body =
    (λ i. take_all body i ++ t ++ drop_past body (length t) i) ∙ append-nil (body ++ t)

module _ (cnt_len : ℕ) where
  round :
      (b t : Text) (rs : List Recv)
      → length b < cnt_len
      → (length t == 0) ≡ false
      → recv_exact_loop cnt_len b (length b) (bytes t ∷ rs)
        ≡ recv_exact_loop cnt_len (b ++ t) (length (b ++ t)) rs
  unfolding recv_exact_loop
  round b t rs less n =
      let l : ltb (length b) cnt_len ≡ true = ground (arith, less) in
      let k : ltb (length b) (length b) ≡ false = ground arith in
      rw (l, k, n)
        (λ i. recv_exact_loop cnt_len (write_at_end t b i) (sym (length-append b t) i) rs)

  enough_lem :
      (b : Text) (rs : List Recv)
      → cnt_len ≤ length b
      → recv_exact_loop cnt_len b (length b) rs
        ≡ ended (ok (record { body = some b; body_len = length b; success = true })) rs
  unfolding recv_exact_loop
  enough_lem b [] e = let l : ltb (length b) cnt_len ≡ false = ground (arith, e) in rw l refl
  enough_lem b (bytes t ∷ rs) e =
      let l : ltb (length b) cnt_len ≡ false = ground (arith, e) in rw l refl
  enough_lem b (failed ∷ rs) e =
      let l : ltb (length b) cnt_len ≡ false = ground (arith, e) in rw l refl
  enough_lem b (timed_out ∷ rs) e =
      let l : ltb (length b) cnt_len ≡ false = ground (arith, e) in rw l refl

  loop_pieces :
      (x : Text) (rs : List Recv) (ts : List Text) (b : Text)
      → NoneEmpty ts
      → length (b ++ join ts) < cnt_len
      → recv_exact_loop cnt_len b (length b) (map bytes ts ++ bytes x ∷ rs)
        ≡ recv_exact_loop cnt_len (b ++ join ts) (length (b ++ join ts)) (bytes x ∷ rs)
  loop_pieces x rs [] b ne less =
      ap (λ c. recv_exact_loop cnt_len c (length c) (bytes x ∷ rs)) (sym (append-nil b))
  loop_pieces x rs (t ∷ ts) b (some_t, ne) less =
      let e = append_assoc b t (join ts) in
      let l : length b < cnt_len = omega (arith, less, length-append b (t ++ join ts)) in
      round b t (map bytes ts ++ bytes x ∷ rs) l some_t
      ∙ loop_pieces x rs ts (b ++ t) ne (rw e less)
      ∙ ap (λ c. recv_exact_loop cnt_len c (length c) (bytes x ∷ rs)) e

shorter_differs : (b t : Text) (n : ℕ) → length (b ++ t) < n → (length b == n) ≡ false
shorter_differs b t n less = ground (arith, less, length-append b t)

-- Where the bytes that came with the header and the pieces after them are fewer than the length that
-- was announced, and one piece more reaches it, none of the pieces empty, the function returns with
-- all of them in order as the body, and their number as its length.
pub http_recv_exact-pieces :
    (cnt_len : ℕ) (ts : List Text) (x body : Text) (rs : List Recv)
    → NoneEmpty ts
    → (length x == 0) ≡ false
    → length (body ++ join ts) < cnt_len
    → cnt_len ≤ length (body ++ join ts ++ x)
    → http_recv_exact cnt_len body (map bytes ts ++ bytes x ∷ rs)
      ≡ ended
          (ok (record {
            body = some (body ++ join ts ++ x);
            body_len = length (body ++ join ts ++ x);
            success = true;
          }))
          rs
unfolding http_recv_exact
http_recv_exact-pieces cnt_len ts x body rs ne some_x less enough =
    let differs : (length body == cnt_len) ≡ false = shorter_differs body (join ts) cnt_len less in
    rw differs (
      loop_pieces cnt_len x rs ts body ne (omega (arith, less))
      ∙ round cnt_len (body ++ join ts) x rs less some_x
      ∙ enough_lem cnt_len (body ++ join ts ++ x) rs enough)
