-- ===== src/Labels/Interning.antt =====
-- The interner of label sets (pkg/pgmodel/labels.go): what `labelProtosToLabels` answers does not
-- depend on what has been interned before.
use timescale_prometheus.Prelude.{
  ◌≡◌, sym, ap, ◌∙◌, ◌↔◌, inl, inr, true, Option, none, some, List, [], arith, Option-cases,
}
use timescale_prometheus.Prelude.Dict
use timescale_prometheus.Prelude.Dict.{lookup-insert}
use timescale_prometheus.Prelude.Bytes.{Bytes, Bytes-discrete}
use timescale_prometheus.Labels.{
  Label, Labels, Interner, get_str, get_labels, set_labels, new_labels, label_protos_to_labels,
  equal,
}
use timescale_prometheus.Labels.Encoding.{get_str_injective, get_str_lem}

-- Every interned entry is the label set of some series under that series' string.
pub record IsValid (interner : Interner) : Type 0 where
  pub built :
      (str : Bytes) (l : Labels)
      → Dict.lookup Bytes-discrete str interner ≡ some l
      → (ls : List Label) × ((get_str ls).0 ≡ some str) × (l ≡ new_labels str (get_str ls).1)

pub empty-IsValid : IsValid []
unfolding Dict.lookup
empty-IsValid = record { built = λ str l h. absurd (ground arith) }

-- What the call would answer with nothing interned.
abbrev pub fresh_answer : List Label → Option (Labels × Bytes)
fresh_answer ls = elim (get_str ls).0 [
  | none ↦ none
  | some s ↦ some (new_labels s (get_str ls).1, (new_labels s (get_str ls).1).metric_name)
]

interned_same :
    (interner : Interner) (ls : List Label) (s : Bytes) (l : Labels)
    → IsValid interner
    → (get_str ls).0 ≡ some s
    → Dict.lookup Bytes-discrete s interner ≡ some l
    → l ≡ new_labels s (get_str ls).1
interned_same interner ls s l v h found =
    let (ms, same_str, e) = v.built s l found in
    e ∙ ap (new_labels s) (get_str_injective ms ls s same_str h)

insert-IsValid :
    (interner : Interner) (ls : List Label) (s : Bytes)
    → IsValid interner
    → (get_str ls).0 ≡ some s
    → IsValid (Dict.insert Bytes-discrete s (new_labels s (get_str ls).1) interner)
insert-IsValid interner ls s v h = record {
  built = λ str l found.
      let at = lookup-insert Bytes-discrete s str (new_labels s (get_str ls).1) interner in
      elim (Bytes-discrete s str) [
        | yes e ↦ (ls, ground arith, ground (arith, at))
        | no other ↦ v.built str l (ground (arith, at))
      ];
}

run_too_long :
    (interner : Interner) (ls : List Label)
    → (get_str ls).0 ≡ none
    → label_protos_to_labels interner ls ≡ (none, interner)
unfolding label_protos_to_labels
run_too_long interner ls h = ground arith

run_interned :
    (interner : Interner) (ls : List Label) (s : Bytes) (l : Labels)
    → (get_str ls).0 ≡ some s
    → Dict.lookup Bytes-discrete s interner ≡ some l
    → label_protos_to_labels interner ls ≡ (some (l, l.metric_name), interner)
unfolding label_protos_to_labels get_labels
run_interned interner ls s l h found = ground arith

run_new :
    (interner : Interner) (ls : List Label) (s : Bytes)
    → (get_str ls).0 ≡ some s
    → Dict.lookup Bytes-discrete s interner ≡ none
    → let l = new_labels s (get_str ls).1 in
      label_protos_to_labels interner ls
      ≡ (some (l, l.metric_name), Dict.insert Bytes-discrete s l interner)
unfolding label_protos_to_labels get_labels set_labels
run_new interner ls s h new = ground arith

fresh_found :
    (ls : List Label) (s : Bytes)
    → (get_str ls).0 ≡ some s
    → let l = new_labels s (get_str ls).1 in fresh_answer ls ≡ some (l, l.metric_name)
fresh_found ls s h = ground arith

-- With a valid interner, labelProtosToLabels answers exactly as it would with nothing interned,
-- errors included, and the interner stays valid.
pub label_protos_to_labels-fresh :
    (interner : Interner) (ls : List Label)
    → IsValid interner
    → ((label_protos_to_labels interner ls).0 ≡ fresh_answer ls)
      × IsValid (label_protos_to_labels interner ls).1
label_protos_to_labels-fresh interner ls v = elim (Option-cases (get_str ls).0) [
  | inl e ↦ rw (run_too_long interner ls e) (ground arith, v)
  | inr (s, e) ↦ elim (Option-cases (Dict.lookup Bytes-discrete s interner)) [
    | inl new ↦
        rw (run_new interner ls s e new)
          (sym (fresh_found ls s e), insert-IsValid interner ls s v e)
    | inr (l, found) ↦ rw (run_interned interner ls s l e found) (
      rw (fresh_found ls s e)
          (ap (λ x. some (x, x.metric_name)) (interned_same interner ls s l v e found)),
      v,
    )
  ]
]

equal-true_iff : (l b : Labels) → (equal l b ≡ true) ↔ (l.str ≡ b.str)
unfolding equal
equal-true_iff l b = ground arith

-- For the label sets built from two series whose strings getStr returns, Equal holds exactly if the
-- two series have the same labels in sorted order.
pub equal_iff :
    (ls ms : List Label) (s t : Bytes)
    → (get_str ls).0 ≡ some s
    → (get_str ms).0 ≡ some t
    → (equal (new_labels s (get_str ls).1) (new_labels t (get_str ms).1) ≡ true)
      ↔ ((get_str ls).1 ≡ (get_str ms).1)
unfolding new_labels
equal_iff ls ms s t h k =
    let l = new_labels s (get_str ls).1 in
    let b = new_labels t (get_str ms).1 in
    (
      λ e. get_str_injective ls ms s h (k ∙ ap some (sym ((equal-true_iff l b).0 e))),
      λ e. (equal-true_iff l b).1 (ground (arith, get_str_lem ls, get_str_lem ms)),
    )
