-- ===== src/Json/Documents.antt =====
-- pkg/api/marshal.go: the responses are JSON documents. A document is described as text: arrays, objects
-- and quoted strings.
use timescale_prometheus.Labels.{Label}
use timescale_prometheus.Prelude.Bytes.{Bytes, codes}
use timescale_prometheus.Json.{
  ErrorWrapper, write_strings, write_escaped_string, opening, marshal_common_footer, marshal_labels,
  marshal_warnings,
}
use timescale_prometheus.Json.Emitting.{
  escaped, Writes, Writes-nil, Writes-append, write_piece-Writes,
}
use timescale_prometheus.Json.Escaping.{write_escaped_string-Writes}
use timescale_prometheus.Prelude.{
  ◌≡◌, ◌==◌, refl, sym, Bool, true, false, Option, List, [], ◌∷◌, ◌++◌, map, if◌then◌else◌, length,
  arith, append_assoc,
}
use mathlib.Core.Path.{subst}

-- Elements after the first, and all elements.
unfoldable pub commas : List Bytes → Bytes
commas [] = []
commas (x ∷ xs) = codes "," ++ x ++ commas xs

unfoldable pub items : Bool → List Bytes → Bytes
unfolding commas
items first [] = []
items true (x ∷ xs) = x ++ commas xs
items false (x ∷ xs) = codes "," ++ x ++ commas xs

unfoldable pub array : List Bytes → Bytes
unfolding items
array xs = codes "[" ++ items true xs ++ codes "]"

unfoldable pub object : List Bytes → Bytes
unfolding items
object fields = codes "{" ++ items true fields ++ codes "}"

unfoldable pub quote : Bytes → Bytes
quote s = codes "\"" ++ s ++ codes "\""

unfoldable pub field : Bytes → Bytes → Bytes
unfolding quote
field name value = quote name ++ codes ":" ++ value

unfoldable pub label_text : Label → Bytes
unfolding field quote
label_text l = field (escaped l.name) (quote (escaped l.value))

items-false : (xs : List Bytes) → items false xs ≡ commas xs
unfolding items commas
items-false [] = refl
items-false (x ∷ xs) = refl

module _ {E W : Type 0} (write : Bytes → W → Option E × W) where
  pub one-Writes :
      (s : Bytes) (out : ErrorWrapper E W) → Writes write out s (write_strings write (s ∷ []) out)
  unfolding write_strings
  one-Writes s out = write_piece-Writes write s out

  -- The same text, differently bracketed.
  pub retext :
      {a b : Bytes} (out out' : ErrorWrapper E W)
      → a ≡ b
      → Writes write out a out'
      → Writes write out b out'
  retext out out' e w = subst (λ t. Writes write out t out') e w

  label-Writes :
      (a : Bytes) (l : Label) (out : ErrorWrapper E W)
      → let o1 = write_strings write ((a ++ codes "\"") ∷ []) out in
        let o2 = write_escaped_string write l.name true o1 in
        let o3 = write_strings write (codes "\":\"" ∷ []) o2 in
        let o4 = write_escaped_string write l.value true o3 in
        Writes write out (a ++ label_text l) (write_strings write (codes "\"" ∷ []) o4)
  unfolding label_text field quote
  label-Writes a l out =
      let o1 = write_strings write ((a ++ codes "\"") ∷ []) out in
      let o2 = write_escaped_string write l.name true o1 in
      let o3 = write_strings write (codes "\":\"" ∷ []) o2 in
      let o4 = write_escaped_string write l.value true o3 in
      let o5 = write_strings write (codes "\"" ∷ []) o4 in
      retext out o5 (simp append_assoc) (
        Writes-append write out o1 o5 (one-Writes (a ++ codes "\"") out) (
          Writes-append write o1 o2 o5 (write_escaped_string-Writes write l.name o1) (
            Writes-append write o2 o3 o5 (one-Writes (codes "\":\"") o2) (
              Writes-append write o3 o4 o5 (write_escaped_string-Writes write l.value o3)
                (one-Writes (codes "\"") o4)))))

  -- An element of a list and the elements after it.
  pub items_cons :
      (first : Bool) (x : Bytes) (xs : List Bytes)
      → (if first then [] else codes ",") ++ x ++ items false xs ≡ items first (x ∷ xs)
  unfolding items
  items_cons true x xs = rw (items-false xs) refl
  items_cons false x xs = rw (items-false xs) refl

  pub marshal_labels-Writes :
      (first : Bool) (ls : List Label) (out : ErrorWrapper E W)
      → Writes write out (items first (map label_text ls)) (marshal_labels write first ls out)
  unfolding marshal_labels
  marshal_labels-Writes first [] out = unfold items in Writes-nil write out
  marshal_labels-Writes first (l ∷ ls) out =
      let a : Bytes = if first then [] else codes "," in
      let o1 = write_strings write ((if first then codes "\"" else codes ",\"") ∷ []) out in
      let o2 = write_escaped_string write l.name true o1 in
      let o3 = write_strings write (codes "\":\"" ∷ []) o2 in
      let o4 = write_escaped_string write l.value true o3 in
      let o5 = write_strings write (codes "\"" ∷ []) o4 in
      let opened : (if first then codes "\"" else codes ",\"") ≡ a ++ codes "\"" = ground arith in
      let one : Writes write out (a ++ label_text l) o5 =
        subst
          (λ t. Writes write out (a ++ label_text l) (
            write_strings write (codes "\"" ∷ []) (
              write_escaped_string write l.value true (
                write_strings write (codes "\":\"" ∷ [])
                  (write_escaped_string write l.name true (write_strings write (t ∷ []) out))))))
          (sym opened) (label-Writes a l out) in
      retext out (marshal_labels write false ls o5)
        (items_cons first (label_text l) (map label_text ls))
        (Writes-append write out o5 (marshal_labels write false ls o5) one
          (marshal_labels-Writes false ls o5))

  opening-comma :
      (first : Bool) (s : Bytes)
      → opening first (codes "," ++ s) ≡ (if first then [] else codes ",") ++ s
  unfolding opening
  opening-comma true s = refl
  opening-comma false s = refl

  -- The opening of an element, with the comma before it.
  pub opening-Writes :
      (first : Bool) (s : Bytes) (out : ErrorWrapper E W)
      → Writes write out
          ((if first then [] else codes ",") ++ s)
          (write_strings write (opening first (codes "," ++ s) ∷ []) out)
  opening-Writes first s out =
      retext out (write_strings write (opening first (codes "," ++ s) ∷ []) out)
        (opening-comma first s) (one-Writes (opening first (codes "," ++ s)) out)

  marshal_warnings-Writes :
      (first : Bool) (ws : List Bytes) (out : ErrorWrapper E W)
      → Writes write out
          (items first (map (λ w. quote (escaped w)) ws))
          (marshal_warnings write first ws out)
  unfolding marshal_warnings quote
  marshal_warnings-Writes first [] out = unfold items in Writes-nil write out
  marshal_warnings-Writes first (w ∷ ws) out =
      let o1 = write_strings write (opening first (codes ",\"") ∷ []) out in
      let o2 = write_escaped_string write w true o1 in
      let o3 = write_strings write (codes "\"" ∷ []) o2 in
      let o4 = marshal_warnings write false ws o3 in
      let rest = map (λ v. quote (escaped v)) ws in
      retext out o4 (items_cons first (quote (escaped w)) rest) (
        retext out o4 (simp append_assoc) (
          Writes-append write out o1 o4 (opening-Writes first (codes "\"") out) (
            Writes-append write o1 o2 o4 (write_escaped_string-Writes write w o1) (
              Writes-append write o2 o3 o4 (one-Writes (codes "\"") o2)
                (marshal_warnings-Writes false ws o3)))))

-- The end of a document, with the warnings if there are some.
unfoldable pub footer_text : List Bytes → Bytes
unfolding array quote
footer_text [] = codes "}\n"
footer_text (w ∷ ws) =
    codes ",\"warnings\":" ++ array (map (λ v. quote (escaped v)) (w ∷ ws)) ++ codes "}\n"

module _ {E W : Type 0} (write : Bytes → W → Option E × W) where
  pub marshal_common_footer-Writes :
      (ws : List Bytes) (out : ErrorWrapper E W)
      → Writes write out (footer_text ws) (marshal_common_footer write ws out)
  unfolding footer_text marshal_common_footer array
  marshal_common_footer-Writes [] out = one-Writes write (codes "}\n") out
  marshal_common_footer-Writes (w ∷ ws) out =
      let o1 = write_strings write (codes ",\"warnings\":[" ∷ []) out in
      let o2 = marshal_warnings write true (w ∷ ws) o1 in
      let o3 = write_strings write (codes "]" ∷ []) o2 in
      let o4 = write_strings write (codes "}\n" ∷ []) o3 in
      let some_warnings : (length (w ∷ ws) == 0) ≡ false = ground arith in
      subst
        (λ b.
          Writes write out (footer_text (w ∷ ws))
            (write_strings write (codes "}\n" ∷ []) (if b then out else o3)))
        (sym some_warnings)
        (retext write out o4 (simp append_assoc) (
          Writes-append write out o1 o4 (one-Writes write (codes ",\"warnings\":[") out) (
            Writes-append write o1 o2 o4 (marshal_warnings-Writes write true (w ∷ ws) o1) (
              Writes-append write o2 o3 o4 (one-Writes write (codes "]") o2)
                (one-Writes write (codes "}\n") o3)))))
