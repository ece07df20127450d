-- ===== src/Labels/Encoding.antt =====
-- The string of `getStr` (pkg/pgmodel/labels.go): its length, when it is refused, and that it tells
-- label sets apart.
use mathlib.Core.List.{Perm}
use mathlib.Core.List.Perm
use timescale_prometheus.Prelude.{
  ◌/◌, ◌%◌, ◌<◌, ◌≡◌, refl, sym, ap, ap₂, ◌∙◌, ◌↔◌, none, some, List, [], ◌∷◌, ◌++◌, arith, ltb,
  if◌then◌else◌, length, length-append,
}
use timescale_prometheus.Prelude.Bytes.{Bytes}
use timescale_prometheus.Labels.{
  Label, insert_label, sort_labels, expected_str_len, max_uint16, write_string, write_labels,
  get_str,
}
use timescale_prometheus.Labels.Sorting.{
  DistinctNames, sort_labels_of_is_sorted, sort_labels-perm, sort_labels_unique,
}

expected_str_len-insert_label :
    (l : Label) (ms : List Label) → expected_str_len (insert_label l ms) ≡ expected_str_len (l ∷ ms)
unfolding expected_str_len insert_label
expected_str_len-insert_label l [] = refl
expected_str_len-insert_label l (m ∷ ms) = ground (arith, expected_str_len-insert_label l ms)

expected_str_len-sort_labels :
    (ls : List Label) → expected_str_len (sort_labels ls) ≡ expected_str_len ls
unfolding expected_str_len sort_labels
expected_str_len-sort_labels [] = refl
expected_str_len-sort_labels (l ∷ ls) =
    omega (arith, expected_str_len-insert_label l (sort_labels ls), expected_str_len-sort_labels ls)

-- `getStr` with its shortcuts gone.
pub get_str_lem :
    (ls : List Label)
    → get_str ls ≡ (
      (if ltb max_uint16 (expected_str_len ls) then none else some (write_labels (sort_labels ls))),
      sort_labels ls,
    )
unfolding get_str
get_str_lem [] = unfold sort_labels expected_str_len write_labels in refl
get_str_lem (l ∷ ls) =
    ground (arith, sort_labels_of_is_sorted (l ∷ ls), expected_str_len-sort_labels (l ∷ ls))

length-write_labels : (ls : List Label) → length (write_labels ls) ≡ expected_str_len ls
unfolding write_labels write_string expected_str_len
length-write_labels [] = refl
length-write_labels (l ∷ ls) = omega (
  arith,
  length-append l.name (write_string l.value ++ write_labels ls),
  length-append l.value (write_labels ls),
  length-write_labels ls,
)

append_inj : (s t r r' : Bytes) → length s ≡ length t → s ++ r ≡ t ++ r' → (s ≡ t) × (r ≡ r')
append_inj [] [] r r' h e = (refl, e)
append_inj [] (y ∷ t) r r' h e = absurd (omega arith)
append_inj (x ∷ s) [] r r' h e = absurd (omega arith)
append_inj (x ∷ s) (y ∷ t) r r' h e =
    let (same, rest) = append_inj s t r r' (omega arith) (ground arith) in (ground arith, rest)

-- A string behind its length can be read back.
write_string_inj :
    (s t r r' : Bytes)
    → length s < 65536
    → length t < 65536
    → write_string s ++ r ≡ write_string t ++ r'
    → (s ≡ t) × (r ≡ r')
unfolding write_string
write_string_inj s t r r' hs ht e =
    let heads : (length s % 65536 % 256 ≡ length t % 65536 % 256)
        × (length s % 65536 / 256 ≡ length t % 65536 / 256) =
      ground arith in
    append_inj s t r r' (omega (arith, heads.0, heads.1)) (ground arith)

write_labels_inj :
    (ls ms : List Label)
    → expected_str_len ls < 65536
    → expected_str_len ms < 65536
    → write_labels ls ≡ write_labels ms
    → ls ≡ ms
unfolding write_labels expected_str_len
write_labels_inj [] [] hl hm e = refl
write_labels_inj [] (m ∷ ms) hl hm e = unfold write_string in absurd (ground arith)
write_labels_inj (l ∷ ls) [] hl hm e = unfold write_string in absurd (ground arith)
write_labels_inj (l ∷ ls) (m ∷ ms) hl hm e =
    let (names, rest) =
      write_string_inj l.name m.name (write_string l.value ++ write_labels ls)
        (write_string m.value ++ write_labels ms) (omega arith) (omega arith) e in
    let (values, rest') =
      write_string_inj l.value m.value (write_labels ls) (write_labels ms) (omega arith)
        (omega arith) rest in
    let first : l ≡ m = λ i. record { name = names i; value = values i } in
    ap₂ (◌∷◌) first (write_labels_inj ls ms (omega arith) (omega arith) rest')

-- getStr fails exactly if the computed length exceeds 65535, and a string that it returns has the
-- computed length.
pub get_str_fits :
    (ls : List Label)
    → (((get_str ls).0 ≡ none) ↔ (65535 < expected_str_len ls))
      × ((s : Bytes) → (get_str ls).0 ≡ some s → length s ≡ expected_str_len ls)
get_str_fits ls = (
  (ground (arith, get_str_lem ls), ground (arith, get_str_lem ls)),
  λ s h. ground (
    arith,
    get_str_lem ls,
    length-write_labels (sort_labels ls),
    expected_str_len-sort_labels ls,
  ),
)

-- Two label sets with one string have the same labels.
pub get_str_injective :
    (ls ms : List Label) (s : Bytes)
    → (get_str ls).0 ≡ some s
    → (get_str ms).0 ≡ some s
    → (get_str ls).1 ≡ (get_str ms).1
get_str_injective ls ms s h k =
    let same : sort_labels ls ≡ sort_labels ms =
      write_labels_inj (sort_labels ls) (sort_labels ms)
        (ground (arith, get_str_lem ls, expected_str_len-sort_labels ls))
        (ground (arith, get_str_lem ms, expected_str_len-sort_labels ms))
        (ground (arith, get_str_lem ls, get_str_lem ms)) in
    ap (λ r. r.1) (get_str_lem ls) ∙ same ∙ sym (ap (λ r. r.1) (get_str_lem ms))

-- For labels with distinct names whose string getStr returns, another label list has that string
-- exactly if it holds the same labels in some order.
pub get_str_canonical :
    (ls ms : List Label) (s : Bytes)
    → DistinctNames ls
    → (get_str ls).0 ≡ some s
    → ((get_str ms).0 ≡ some s) ↔ Perm ls ms
get_str_canonical ls ms s distinct h = (
  λ k.
      let same = get_str_injective ls ms s h k in
      Perm.trans (Perm.symm (sort_labels-perm ls)) (
        rw (sym (ap (λ r. r.1) (get_str_lem ls)) ∙ same ∙ ap (λ r. r.1) (get_str_lem ms))
          (sort_labels-perm ms)),
  λ p.
      let same = sort_labels_unique ls ms p distinct in
      ground (
        arith,
        get_str_lem ls,
        get_str_lem ms,
        ap expected_str_len same,
        expected_str_len-sort_labels ls,
        expected_str_len-sort_labels ms,
      ),
)
