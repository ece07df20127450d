-- ===== src/Tests/LabelsTests.antt =====
-- Runs and instances for pkg/pgmodel/labels.go.
use mathlib.Core.List.{Perm, Nodup-cons, Nodup-nil, not-mem-nil, mem-cons}
use mathlib.Core.HLevel.{⊥_prop}
use mathlib.Core.Logic.Or
use timescale_prometheus.Prelude.{◌≡◌, refl, ◌↔◌, Option, some, List, [], ◌∷◌, ◌++◌, arith}
use timescale_prometheus.Prelude.{ℕ_discrete}
use timescale_prometheus.Prelude.Dict
use timescale_prometheus.Prelude.Bytes.{Bytes, codes, Bytes-discrete, str_lt}
use timescale_prometheus.Labels.{
  Label, is_sorted, sort_labels, insert_label, expected_str_len, write_labels, write_string,
  get_str, get_labels, set_labels, new_labels, label_protos_to_labels, find_metric_name,
}
use timescale_prometheus.Labels.Sorting.{DistinctNames}
use timescale_prometheus.Labels.Encoding.{get_str_canonical}
use timescale_prometheus.Labels.Interning.{
  IsValid, empty-IsValid, label_protos_to_labels-fresh, fresh_answer,
}

abbrev metric : Label
metric = record { name = codes "__name__"; value = codes "m" }

abbrev job : Label
job = record { name = codes "A"; value = codes "b" }

runs : List Label → Option Bytes × List Label
unfolding label_protos_to_labels get_labels set_labels new_labels find_metric_name get_str is_sorted
    sort_labels insert_label expected_str_len write_labels write_string str_lt Bytes-discrete
    Dict.lookup Dict.insert Dict.delete ℕ_discrete
runs = get_str

abbrev text : Bytes
text = 1 ∷ 0 ∷ b'A' ∷ 1 ∷ 0 ∷ b'b' ∷ 8 ∷ 0 ∷ codes "__name__" ++ (1 ∷ 0 ∷ b'm' ∷ [])

encodes : get_str (metric ∷ job ∷ []) ≡ (some text, job ∷ metric ∷ [])
unfolding runs
encodes = refl

-- The second series is found under the string of the first one.
interns :
    (label_protos_to_labels [] (metric ∷ job ∷ [])).0
    ≡ (label_protos_to_labels
        (label_protos_to_labels [] (metric ∷ job ∷ [])).1
        (job ∷ metric ∷ [])).0
unfolding runs
interns = refl

distinct : DistinctNames (metric ∷ job ∷ [])
distinct = Nodup-cons.1 (
  λ m. Or.elim ⊥_prop (mem-cons.0 m) (λ e. ground arith) not-mem-nil,
  Nodup-cons.1 (not-mem-nil, Nodup-nil),
)

get_str_canonical_example :
    ((get_str (job ∷ metric ∷ [])).0 ≡ some text) ↔ Perm (metric ∷ job ∷ []) (job ∷ metric ∷ [])
unfolding runs
get_str_canonical_example =
    get_str_canonical (metric ∷ job ∷ []) (job ∷ metric ∷ []) text distinct refl

label_protos_to_labels-fresh_example :
    ((label_protos_to_labels [] (metric ∷ job ∷ [])).0 ≡ fresh_answer (metric ∷ job ∷ []))
    × IsValid (label_protos_to_labels [] (metric ∷ job ∷ [])).1
label_protos_to_labels-fresh_example =
    label_protos_to_labels-fresh [] (metric ∷ job ∷ []) empty-IsValid
