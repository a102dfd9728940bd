-- ===== src/Hash/Lookup.antt =====
-- The tables of src/hash.c: when one is in order, and its lookups and insertions.
use memqueue.Base.{
  ◌+◌, ℕ, zero, suc, ◌≤◌, ◌<◌, ◌≡◌, ◌≢◌, refl, List, [], ◌∷◌, ◌++◌, Option, none, some, Text,
  str_eq, str_eq_iff, eq_of_str_eq, ap, length, length-append, get_or, set, length-set,
  length-replicate, replicate, ◌==◌, ◌&&◌, ltb, inl, inr, if◌then◌else◌, Option-cases, Bool-cases,
  ==_iff, ne_of_==, sym, ◌∙◌, arith,
}
use memqueue.Base.Int.{pos, negsuc}
use memqueue.Hash.Chain.{Item, find, count, count-eq-zero, count-append, find-append_one}
use memqueue.Hash.{Hash, h_init, slot, bucket, h_get, h_insert}
use mathlib.Core.Option

module _ {ℓ} {A : Type ℓ} where
  get_or-set :
      (xs : List A) (i j : ℕ) (v d : A)
      → get_or (set xs i v) j d ≡ (if (i == j) && ltb i (length xs) then v else get_or xs j d)
  get_or-set [] i j v d = ground arith
  get_or-set (x ∷ xs) zero zero v d = ground arith
  get_or-set (x ∷ xs) zero (suc j) v d = ground arith
  get_or-set (x ∷ xs) (suc i) zero v d = ground arith
  get_or-set (x ∷ xs) (suc i) (suc j) v d = ground (arith, get_or-set xs i j v d)

  get_or-replicate : (n j : ℕ) (d : A) → get_or (replicate n d) j d ≡ d
  get_or-replicate zero j d = refl
  get_or-replicate (suc n) zero d = refl
  get_or-replicate (suc n) (suc j) d = get_or-replicate n j d

module _ {ℓ} {V : Type ℓ} where
  -- Each bucket finds what the order list finds, and no key is there twice.
  pub record IsValid (h : Hash V) : Type ℓ where
    pub nonempty : 0 < h.size
    pub width : length h.buckets ≡ h.size
    pub agree : (k : Text) → find k (bucket h k) ≡ find k h.order
    pub once : (k : Text) → count k h.order ≤ 1
    pub once_bucket : (k : Text) (i : ℕ) → count k (get_or h.buckets i []) ≤ 1

  slot-lt : (h : Hash V) (k : Text) → 0 < h.size → slot h k < h.size
  unfolding slot
  slot-lt h k p = omega arith

  pub h_get-h_init : (n : ℕ) (k : Text) → h_get (h_init {V = V} n) k ≡ none
  unfolding h_get h_init bucket find
  h_get-h_init n k = rw get_or-replicate

  pub h_init-IsValid : (n : ℕ) → 0 < n → IsValid (h_init {V = V} n)
  unfolding h_init bucket find count
  h_init-IsValid n p = record {
    nonempty = p;
    width = length-replicate n [];
    agree = λ k. rw get_or-replicate;
    once = λ k. omega arith;
    once_bucket = λ k i. rw get_or-replicate (omega arith);
  }

  -- The replacement of one bucket: `c` for the bucket of `key`, beside a new order list.
  module _ (h : Hash V) (v : IsValid h) (key : Text) (c order' : List (Item V)) where
    abbrev pub replaced : Hash V
    replaced = record h { buckets = set h.buckets (slot h key) c; order = order' }

    bucket-replaced :
        (k : Text) → bucket replaced k ≡ (if slot h key == slot h k then c else bucket h k)
    unfolding bucket slot
    bucket-replaced k =
        rw (get_or-set h.buckets (slot h key) (slot h k) c [])
          (ground (arith, slot-lt h key v.nonempty, v.width))

    pub replaced-IsValid :
        ((k : Text) → slot h k ≡ slot h key → find k c ≡ find k order')
        → ((k : Text) → slot h k ≢ slot h key → find k h.order ≡ find k order')
        → ((k : Text) → count k order' ≤ 1)
        → ((k : Text) → count k c ≤ 1)
        → IsValid replaced
    replaced-IsValid same other once few = record {
      nonempty = v.nonempty;
      width = rw (length-set h.buckets (slot h key) c) v.width;
      agree = λ k. elim (Bool-cases (slot h key == slot h k)) [
        | inl e ↦ rw (bucket-replaced k, e) (same k (sym ((==_iff _ _).0 e)))
        | inr e ↦ rw (bucket-replaced k, e) (v.agree k ∙ other k (λ p. ne_of_== _ _ e (sym p)))
      ];
      once = once;
      once_bucket = λ k i.
          rw (get_or-set h.buckets (slot h key) i c []) (ground (arith, few k, v.once_bucket k i));
    }

  find_order :
      (h : Hash V) (k : Text)
      → IsValid h
      → (u : Option (Item V)) → find k (bucket h k) ≡ u
      → find k h.order ≡ u
  find_order h k v u e = sym (v.agree k) ∙ e

  -- How `h_get` reads the order list.
  pub h_get-order :
      (h : Hash V) (k : Text) → IsValid h → h_get h k ≡ Option.map (λ x. x.value) (find k h.order)
  unfolding h_get
  h_get-order h k v = rw (v.agree k)

  pub find_of_get_none : (h : Hash V) (k : Text) → h_get h k ≡ none → find k (bucket h k) ≡ none
  unfolding h_get
  find_of_get_none h k e = ground arith

  find_of_get :
      (h : Hash V) (k : Text) (u : V)
      → h_get h k ≡ some u
      → (x : Item V) × (find k (bucket h k) ≡ some x) × (x.value ≡ u)
  unfolding h_get
  find_of_get h k u e = elim (Option-cases (find k (bucket h k))) [
    | inl absent ↦ cc (rw absent at e)
    | inr (x, found) ↦ (x, found, ground arith)
  ]

  module _ (h : Hash V) (v : IsValid h) (key : Text) (value : V) where
    abbrev item : Item V
    item = record { key = key; value = value }

    module _ (absent : find key (bucket h key) ≡ none) where
      insert_once : (k : Text) → count k (h.order ++ item ∷ []) ≤ 1
      unfolding count
      insert_once k = rw count-append (
          ground (
            arith,
            v.once k,
            str_eq_iff k key,
            count-eq-zero k h.order,
            find_order h key v none absent,
          ))

      insert_few : (k : Text) → count k (item ∷ bucket h key) ≤ 1
      unfolding count bucket
      insert_few k =
          ground
            (arith, v.once_bucket k (slot h key), str_eq_iff k key, count-eq-zero k (bucket h key))

      insert_agree :
          (k : Text)
          → slot h k ≡ slot h key
          → find k (item ∷ bucket h key) ≡ find k (h.order ++ item ∷ [])
      unfolding find bucket
      insert_agree k e =
          rw (find-append_one k h.order item (find_order h key v none absent), ← v.agree k) (rw e)

      insert_other :
          (k : Text) → slot h k ≢ slot h key → find k h.order ≡ find k (h.order ++ item ∷ [])
      unfolding slot
      insert_other k n =
          rw (find-append_one k h.order item (find_order h key v none absent))
            (elim (Bool-cases (str_eq k key)) [
              | inl e ↦ absurd (n (ap (slot h) (eq_of_str_eq k key e)))
              | inr e ↦ rw e
            ])

      insert_new :
          h_insert h key value
          ≡ (replaced h v key (item ∷ bucket h key) (h.order ++ item ∷ []), pos 0)
      unfolding h_insert
      insert_new = rw (h_insert, absent)

    -- An insertion keeps the table in order, on both of its branches.
    pub h_insert-IsValid : IsValid (h_insert h key value).0
    unfolding h_insert
    h_insert-IsValid = elim (Option-cases (find key (bucket h key))) [
      | inr (x, e) ↦ rw (h_insert, e) v
      | inl e ↦ rw (insert_new e) (
          replaced-IsValid h v key _ _ (insert_agree e) (insert_other e) (insert_once e)
            (insert_few e))
    ]

    insert_branches :
        (q : Text)
        → ((u : V) → h_get h key ≡ some u → h_insert h key value ≡ (h, negsuc 0))
          × (h_get h key ≡ none
              → ((h_insert h key value).1 ≡ pos 0)
                × (h_get (h_insert h key value).0 q
                    ≡ (if str_eq q key then some value else h_get h q)))
    unfolding h_insert
    insert_branches q = (
      λ u e. let (x, found, _) = find_of_get h key u e in rw (h_insert, found),
      λ e.
          let absent = find_of_get_none h key e in
          (
            rw (insert_new absent),
            rw
                (
                  h_get-order (h_insert h key value).0 q h_insert-IsValid,
                  h_get-order h q v,
                  insert_new absent,
                  find-append_one q h.order item (find_order h key v none absent),
                )
                (elim (Bool-cases (str_eq q key)) [ inl e ↦ rw e | inr e ↦ rw e ]),
          ),
    )

    -- A new key makes the order list longer by one, and does not touch a traversal.
    pub h_insert_new :
        h_get h key ≡ none
        → (length (h_insert h key value).0.order ≡ length h.order + 1)
          × ((h_insert h key value).0.order_next ≡ h.order_next)
    h_insert_new e =
        let same = insert_new (find_of_get_none h key e) in
        (
          ap (λ x. length x.0.order) same ∙ length-append h.order (item ∷ []),
          ap (λ x. x.0.order_next) same,
        )

    -- A key that is there keeps its value, and the call says so by -1; else it reads as the new
    -- value from then on and the result is 0. Every other key reads as before.
    pub h_insert_lem :
        (q : Text)
        → ((h_insert h key value).1 ≡ elim (h_get h key) [ none ↦ pos 0 | some _ ↦ negsuc 0 ])
          × (h_get (h_insert h key value).0 q ≡ (
              if str_eq q key
              then some (elim (h_get h key) [ none ↦ value | some u ↦ u ])
              else h_get h q))
    h_insert_lem q = elim (Option-cases (h_get h key)) [
      | inl e ↦ let (r, g) = (insert_branches q).1 e in (r ∙ rw e refl, g ∙ rw e refl)
      | inr (u, e) ↦
          let same = (insert_branches q).0 u e in
          (
            ap (λ x. x.1) same ∙ rw e refl,
            ap (λ x. h_get x.0 q) same ∙ elim (Bool-cases (str_eq q key)) [
              | inl t ↦ rw (t, eq_of_str_eq q key t, e) refl
              | inr f ↦ rw f refl
            ],
          )
    ]
