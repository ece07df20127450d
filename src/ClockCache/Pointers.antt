-- ===== src/ClockCache/Pointers.antt =====
-- How the pointers of `elements` follow when a slot is added or written anew
-- (pkg/clockcache/cache.go).

use timescale_prometheus.Prelude.Dict
use timescale_prometheus.Prelude.Dict.{lookup-insert, lookup-delete}
use timescale_prometheus.Prelude.{
  ℕ, zero, suc, ◌<◌, ◌≡◌, ◌↔◌, inl, inr, ite, if_pos, if_neg, none, some, List, [], ◌∷◌, ◌++◌,
  arith, length, get_elem?, set, Option-cases, get_elem?-set_self, get_elem?-set_ne,
  lt-length_of_get_elem?, ℕ_discrete,
}
use timescale_prometheus.ClockCache.Contents.{key_at, contents_of}

module _ {A : Type 0} where
  pub get_elem?-set :
      (es : List A) (i j : ℕ) (x : A)
      → i < length es
      → get_elem? (set es i x) j ≡ ite (ℕ_discrete i j) (some x) (get_elem? es j)
  get_elem?-set es i j x h = elim (ℕ_discrete i j) [
    | yes p ↦ rw (if_pos _ p, ← p) (get_elem?-set_self es i x h)
    | no p ↦ rw (if_neg _ p) (get_elem?-set_ne es i j x p)
  ]

  pub get_elem?-snoc :
      (es : List A) (j : ℕ) (x : A)
      → get_elem? (es ++ x ∷ []) j ≡ ite (ℕ_discrete (length es) j) (some x) (get_elem? es j)
  get_elem?-snoc [] zero x = ground arith
  get_elem?-snoc [] (suc j) x = ground arith
  get_elem?-snoc (e ∷ es) zero x = ground arith
  get_elem?-snoc (e ∷ es) (suc j) x = ground (arith, get_elem?-snoc es j x)

pub key_at_lt :
    {K V : Type 0} (es : List (K × V)) (i : ℕ) {key : K} → key_at es i ≡ some key → i < length es
key_at_lt es i h = elim (Option-cases (get_elem? es i)) [
  | inl e ↦ absurd (ground arith)
  | inr (x, e) ↦ lt-length_of_get_elem? es i e
]

module _ {K V : Type 0} (dec : Discrete K) where
  abbrev pub Pointers : List (K × ℕ) → List (K × V) → Type 0
  Pointers m es = (key : K) (i : ℕ) → (Dict.lookup dec key m ≡ some i) ↔ (key_at es i ≡ some key)

  module _ (m : List (K × ℕ)) (es : List (K × V)) (ptr : Pointers m es) (key : K) (value : V)
      (new : Dict.lookup dec key m ≡ none) where
    pub contents_of-grow :
        (q : K)
        → contents_of dec (Dict.insert dec key (length es) m) (es ++ (key, value) ∷ []) q
          ≡ ite (dec key q) (some value) (contents_of dec m es q)
    contents_of-grow q =
        let x : K × V = (key, value) in
        let found = lookup-insert dec key q (length es) m in
        let here = get_elem?-snoc es (length es) x in
        elim (Option-cases (Dict.lookup dec q m)) [
          | inl e ↦ ground (arith, found, here)
          | inr (j, e) ↦
              ground (arith, found, here, get_elem?-snoc es j x, key_at_lt es j ((ptr q j).0 e))
        ]

    pub Pointers-grow : Pointers (Dict.insert dec key (length es) m) (es ++ (key, value) ∷ [])
    Pointers-grow q j =
        let x : K × V = (key, value) in
        let found = lookup-insert dec key q (length es) m in
        let there = get_elem?-snoc es j x in
        let old = ptr q j in
        (
          λ h. ground (arith, found, there, old, key_at_lt es j {key = q}),
          λ h. ground (arith, found, there, old, new),
        )

    module _ (i : ℕ) (old : K) (there : key_at es i ≡ some old) where
      freed :
          (q : K)
          → Dict.lookup dec q (Dict.insert dec key i (Dict.delete dec old m))
            ≡ ite (dec key q) (some i) (ite (dec old q) none (Dict.lookup dec q m))
      freed q = rw (lookup-insert dec key q i (Dict.delete dec old m), lookup-delete dec old q m)

      pub contents_of-replace :
          (q : K)
          → contents_of dec
              (Dict.insert dec key i (Dict.delete dec old m))
              (set es i (key, value))
              q
            ≡ ite (dec key q) (some value) (ite (dec old q) none (contents_of dec m es q))
      contents_of-replace q =
          let x : K × V = (key, value) in
          let here = get_elem?-set es i i x (key_at_lt es i there) in
          elim (Option-cases (Dict.lookup dec q m)) [
            | inl e ↦ ground (arith, freed q, here)
            | inr (j, e) ↦
                ground (
                  arith,
                  freed q,
                  here,
                  get_elem?-set es i j x (key_at_lt es i there),
                  (ptr q j).0 e,
                )
          ]

      pub Pointers-replace :
          Pointers (Dict.insert dec key i (Dict.delete dec old m)) (set es i (key, value))
      Pointers-replace q j =
          let x : K × V = (key, value) in
          let at_j = get_elem?-set es i j x (key_at_lt es i there) in
          let held = (ptr old i).1 there in
          (
            λ h. ground (arith, freed q, at_j, ptr q j),
            λ h. ground (arith, freed q, at_j, ptr q j, held, new),
          )
