-- ===== src/Labels.antt =====
-- pkg/pgmodel/labels.go: the canonical string of a label set, and the interner of label sets.
pub mod Sorting
pub mod Encoding
pub mod Interning
use timescale_prometheus.Prelude.Dict
use timescale_prometheus.Prelude.Bytes.{Bytes, Bytes-discrete, codes, str_lt}
use timescale_prometheus.Prelude.{
  ℕ, ◌+◌, ◌*◌, ◌/◌, ◌%◌, Bool, true, false, not, ◌&&◌, Option, none, some, List, [], ◌∷◌, ◌++◌, map,
  ite, ltb, if◌then◌else◌, length, get_elem?, set, ◌>>=◌,
}

-- `prompb.Label`
pub record Label : Type 0 where
  pub name : Bytes
  pub value : Bytes

-- `Labels`
pub record Labels : Type 0 where
  pub names : List Bytes
  pub values : List Bytes
  pub metric_name : Bytes
  pub str : Bytes

abbrev pub metric_name_label_name : Bytes
metric_name_label_name = codes "__name__"

-- `comparator` of `getStr`
abbrev pub name_lt : Label → Label → Bool
name_lt l m = str_lt l.name m.name

-- `sort.SliceIsSorted(labels, comparator)`
unfoldable pub is_sorted : List Label → Bool
is_sorted [] = true
is_sorted (l ∷ []) = true
is_sorted (l ∷ m ∷ ls) = not (name_lt m l) && is_sorted (m ∷ ls)

unfoldable pub insert_label : Label → List Label → List Label
insert_label l [] = l ∷ []
insert_label l (m ∷ ms) =
    let rest = insert_label l ms in if name_lt m l then m ∷ rest else l ∷ m ∷ ms

-- `sort.Slice(labels, comparator)`; labels of one name, which Go may order either way, keep their
-- order here.
unfoldable pub sort_labels : List Label → List Label
sort_labels [] = []
sort_labels (l ∷ ls) = insert_label l (sort_labels ls)

-- `expectedStrLen`
unfoldable pub expected_str_len : List Label → ℕ
expected_str_len [] = 0
expected_str_len (l ∷ ls) = 4 + length l.name + length l.value + expected_str_len ls

abbrev pub max_uint16 : ℕ
max_uint16 = 65535

-- `binary.LittleEndian.PutUint16(lengthBuf, uint16(len(s)))`, the two bytes, and the string.
unfoldable pub write_string : Bytes → Bytes
write_string s = let len = length s % 65536 in (len % 256) ∷ (len / 256) ∷ s

unfoldable pub write_labels : List Label → Bytes
write_labels [] = []
write_labels (l ∷ ls) = write_string l.name ++ (write_string l.value ++ write_labels ls)

-- `getStr`: the string, `none` for a series that is too long, and the labels as the call leaves them.
unfoldable pub get_str : List Label → Option Bytes × List Label
get_str [] = (some [], [])
get_str (l ∷ ls) =
    let sorted = if is_sorted (l ∷ ls) then l ∷ ls else sort_labels (l ∷ ls) in
    if ltb max_uint16 (expected_str_len sorted)
    then (none, sorted)
    else (some (write_labels sorted), sorted)

-- `LabelsInterner`
abbrev pub Interner : Type 0
Interner = List (Bytes × Labels)

-- `GetLabels`
unfoldable pub get_labels : Interner → Bytes → Option Labels
get_labels interner str = Dict.lookup Bytes-discrete str interner

-- `SetLabels`: `LoadOrStore`
unfoldable pub set_labels : Interner → Bytes → Labels → Labels × Interner
set_labels interner str lset = elim (Dict.lookup Bytes-discrete str interner) [
  | some l ↦ (l, interner)
  | none ↦ (lset, Dict.insert Bytes-discrete str lset interner)
]

-- The metric name that the loop of `labelProtosToLabels` leaves: the last label of that name wins.
unfoldable pub find_metric_name : List Label → Bytes → Bytes
find_metric_name [] found = found
find_metric_name (l ∷ ls) found =
    find_metric_name ls (ite (Bytes-discrete l.name metric_name_label_name) l.value found)

-- The `Labels` that `labelProtosToLabels` builds.
unfoldable pub new_labels : Bytes → List Label → Labels
new_labels str ls = record {
  names = map (λ l. l.name) ls;
  values = map (λ l. l.value) ls;
  metric_name = find_metric_name ls [];
  str = str;
}

-- `labelProtosToLabels`: the labels and the metric name, `none` for the error of `getStr`, and the
-- interner.
unfoldable pub label_protos_to_labels : Interner → List Label → Option (Labels × Bytes) × Interner
label_protos_to_labels interner label_pairs =
    let (str, sorted) = get_str label_pairs in
    elim str [
      | none ↦ (none, interner)
      | some s ↦ elim (get_labels interner s) [
        | some l ↦ (some (l, l.metric_name), interner)
        | none ↦
            let (l, interner') = set_labels interner s (new_labels s sorted) in
            (some (l, l.metric_name), interner')
      ]
    ]

-- `LabelsFromSlice`, whose labels have the fields of those of the protobuf type.
unfoldable pub labels_from_slice : Interner → List Label → Option Labels × Interner
unfolding label_protos_to_labels
labels_from_slice interner ls =
    let (l, interner') = label_protos_to_labels interner ls in
    (elim l [ none ↦ none | some (x, name) ↦ some x ], interner')

-- `Labels.Less`; none is the panic for an index out of range.
unfoldable pub less : Labels → ℕ → ℕ → Option Bool
less l i j = do a ← get_elem? l.names i; b ← get_elem? l.names j; some (str_lt a b)

-- `Labels.Swap`
unfoldable pub swap : Labels → ℕ → ℕ → Option Labels
swap l i j = do
  name_i ← get_elem? l.names i
  name_j ← get_elem? l.names j
  value_i ← get_elem? l.values i
  value_j ← get_elem? l.values j
  some (record l {
    names = set (set l.names j name_i) i name_j;
    values = set (set l.values j value_i) i value_j;
  })

-- `Labels.Equal`
unfoldable pub equal : Labels → Labels → Bool
equal l b = ite (Bytes-discrete l.str b.str) true false

-- `Labels.Compare(b) < 0`, as `setSeriesIds` uses it.
unfoldable pub compare_lt : Labels → Labels → Bool
compare_lt l b = str_lt l.str b.str
