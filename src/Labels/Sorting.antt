-- ===== src/Labels/Sorting.antt =====
-- The sort of `getStr` (pkg/pgmodel/labels.go): it only reorders, and labels with distinct names come
-- out the same in whatever order they go in.
use mathlib.Core.List.{Mem, Perm, Permᴰ, Nodup, Nodup-cons, mem-cons_self}
use mathlib.Core.List.Perm
use mathlib.Core.Logic.{∥∥₁_elim}
use mathlib.Core.Path.{subst}
use timescale_prometheus.Prelude.{
  ◌≡◌, refl, sym, ap₂, ◌∙◌, ◌≢◌, inl, inr, true, false, List, [], ◌∷◌, arith, map, Bool-cases,
}
use timescale_prometheus.Prelude.Bytes.{Bytes, str_lt_asymm, str_lt_trans, str_lt_connected}
use timescale_prometheus.Labels.{Label, name_lt, is_sorted, insert_label, sort_labels}

-- `l` may stand before the list.
abbrev pub Leads : Label → List Label → Type 0
Leads l [] = Unit
Leads l (m ∷ ms) = name_lt m l ≡ false

insert_label_of_Leads : (l : Label) (ms : List Label) → Leads l ms → insert_label l ms ≡ l ∷ ms
unfolding insert_label
insert_label_of_Leads l [] h = refl
insert_label_of_Leads l (m ∷ ms) h = ground arith

-- To sort what is sorted already changes nothing, so the test before the sort only saves time.
pub sort_labels_of_is_sorted : (ls : List Label) → is_sorted ls ≡ true → sort_labels ls ≡ ls
unfolding is_sorted sort_labels insert_label
sort_labels_of_is_sorted [] h = refl
sort_labels_of_is_sorted (l ∷ []) h = refl
sort_labels_of_is_sorted (l ∷ m ∷ ls) h =
    ground (arith, sort_labels_of_is_sorted (m ∷ ls), insert_label_of_Leads l (m ∷ ls))

insert_label-perm : (l : Label) (ms : List Label) → Perm (insert_label l ms) (l ∷ ms)
unfolding insert_label
insert_label-perm l [] = Perm.refl (l ∷ [])
insert_label-perm l (m ∷ ms) = elim (Bool-cases (name_lt m l)) [
  | inl e ↦
      rw (e, insert_label) (Perm.trans (Perm.cons m (insert_label-perm l ms)) (Perm.swap l m ms))
  | inr e ↦ rw (e, insert_label) (Perm.refl (l ∷ m ∷ ms))
]

pub sort_labels-perm : (ls : List Label) → Perm (sort_labels ls) ls
unfolding sort_labels
sort_labels-perm [] = Perm.refl []
sort_labels-perm (l ∷ ls) =
    Perm.trans (insert_label-perm l (sort_labels ls)) (Perm.cons l (sort_labels-perm ls))

insert_label-is_sorted :
    (l : Label) (ms : List Label) → is_sorted ms ≡ true → is_sorted (insert_label l ms) ≡ true
unfolding is_sorted insert_label
insert_label-is_sorted l [] h = refl
insert_label-is_sorted l (m ∷ []) h = ground (arith, str_lt_asymm m.name l.name)
insert_label-is_sorted l (m ∷ n ∷ ms) h = ground (
  arith,
  insert_label-is_sorted l (n ∷ ms),
  str_lt_asymm m.name l.name,
  str_lt_asymm n.name l.name,
)

pub sort_labels-is_sorted : (ls : List Label) → is_sorted (sort_labels ls) ≡ true
unfolding sort_labels is_sorted
sort_labels-is_sorted [] = refl
sort_labels-is_sorted (l ∷ ls) =
    insert_label-is_sorted l (sort_labels ls) (sort_labels-is_sorted ls)

-- Labels of different names may be inserted in either order.
insert_label_comm :
    (a b : Label) (ls : List Label)
    → a.name ≢ b.name
    → insert_label a (insert_label b ls) ≡ insert_label b (insert_label a ls)
unfolding insert_label
insert_label_comm a b [] ne =
    ground (arith, str_lt_asymm a.name b.name, str_lt_connected a.name b.name)
insert_label_comm a b (m ∷ ms) ne = ground (
  arith,
  insert_label_comm a b ms ne,
  str_lt_asymm a.name b.name,
  str_lt_connected a.name b.name,
  str_lt_trans m.name a.name b.name,
  str_lt_trans m.name b.name a.name,
  str_lt_trans a.name m.name b.name,
  str_lt_asymm a.name m.name,
  str_lt_asymm b.name m.name,
  str_lt_connected a.name m.name,
  str_lt_connected b.name m.name,
)

abbrev pub label_name : Label → Bytes
label_name l = l.name

abbrev pub DistinctNames : List Label → Type 0
DistinctNames ls = Nodup (map label_name ls)

distinct_first : (a b : Label) (ls : List Label) → DistinctNames (a ∷ b ∷ ls) → a.name ≢ b.name
distinct_first a b ls h e =
    (Nodup-cons.0 h).0 (subst (λ n. Mem n (map label_name (b ∷ ls))) (sym e) mem-cons_self)

sort_labels-permᴰ :
    (ls ms : List Label) → Permᴰ ls ms → DistinctNames ls → sort_labels ls ≡ sort_labels ms
unfolding sort_labels
sort_labels-permᴰ ls ms Permᴰ.nil h = refl
sort_labels-permᴰ ls ms (Permᴰ.cons {a} {b} {l₁} {l₂} e p) h =
    ap₂ insert_label e (sort_labels-permᴰ l₁ l₂ p (Nodup-cons.0 h).1)
sort_labels-permᴰ ls ms (Permᴰ.swap {a} {b} {l = l} e e') h =
    insert_label_comm a b (sort_labels l) (distinct_first a b l h)
    ∙ ap₂ (λ x y. insert_label x (insert_label y (sort_labels l))) e' e
sort_labels-permᴰ ls ms (Permᴰ.trans {l₁} {l₂} {l₃} p q) h =
    sort_labels-permᴰ l₁ l₂ p h
    ∙ sort_labels-permᴰ l₂ l₃ q (Perm.nodup (Perm.map label_name ∣ p ∣₁) h)

pub Label-set : IsSet Label
Label-set = hlevel

-- The order in which labels with distinct names are given does not matter.
pub sort_labels_unique :
    (ls ms : List Label) → Perm ls ms → DistinctNames ls → sort_labels ls ≡ sort_labels ms
sort_labels_unique ls ms p h =
    ∥∥₁_elim p (Labels-set (sort_labels ls) (sort_labels ms)) (λ d. sort_labels-permᴰ ls ms d h)
  where
    Labels-set : IsSet (List Label)
    Labels-set = hlevel
