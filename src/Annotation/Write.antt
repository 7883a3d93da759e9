-- ===== src/Annotation/Write.antt =====
-- The loops of ApplyPartitioning (internal/partitioning/mig/partitioner.go) and of the reporter
-- (internal/controllers/migagent/reporter.go) that write a node's annotations.
use walkai_nos.Base.{
  ◌≡◌, refl, ◌∙◌, ap, false, none, some, List, [], ◌∷◌, ◌++◌, String, String_eq, if◌then◌else◌, All,
  arith, Option,
}
use mathlib.Core.List.{append_assoc, append-nil}
use walkai_nos.GoMap.{GoMap, get?, put}
use walkai_nos.Text.{has_prefix}
use walkai_nos.Annotation.{SpecAnnotation, StatusAnnotation}
use walkai_nos.Annotation.Format.{
  parse_spec_annotation, parse_status_annotation, parse_node_annotations, add_parsed, spec_key,
  spec_value, status_key, status_value, annotation_gpu_spec_prefix,
}
use walkai_nos.Annotation.RoundTrip.{CanBeKey, parse-spec_key}
use walkai_nos.Text.Decimal.{IsInt64}

-- for k := range annotations { if strings.HasPrefix(k, prefix) { delete(annotations, k) } }
unfoldable pub delete_with_prefix : String → GoMap String String → GoMap String String
unfolding has_prefix
delete_with_prefix prefix [] = []
delete_with_prefix prefix ((k, v) ∷ rest) =
    if has_prefix k prefix
    then delete_with_prefix prefix rest
    else (k, v) ∷ delete_with_prefix prefix rest

unfoldable pub write_specs : List SpecAnnotation → GoMap String String → GoMap String String
unfolding spec_key
write_specs [] m = m
write_specs (a ∷ rest) m = write_specs rest (put (spec_key a) (spec_value a) m)

unfoldable pub write_statuses : List StatusAnnotation → GoMap String String → GoMap String String
unfolding status_key
write_statuses [] m = m
write_statuses (a ∷ rest) m = write_statuses rest (put (status_key a) (status_value a) m)

-- A key that a map does not have is written behind its entries.
pub put_new :
    (k v : String) (m : GoMap String String) → get? k m ≡ none → put k v m ≡ m ++ (k, v) ∷ []
unfolding put get?
put_new k v [] h = refl
put_new k v ((j, w) ∷ m) h = ground (arith, h, put_new k v m)

-- What is read of two groups of annotations, one behind the other.
abbrev pub append_parsed :
    (r q : List StatusAnnotation × List SpecAnnotation)
    → List StatusAnnotation × List SpecAnnotation
append_parsed r q = (r.0 ++ q.0, r.1 ++ q.1)

add_parsed-append :
    (o : Option SpecAnnotation) (s : Option StatusAnnotation)
    (r q : List StatusAnnotation × List SpecAnnotation)
    → add_parsed o s (append_parsed r q) ≡ append_parsed (add_parsed o s r) q
add_parsed-append (some a) s r q = refl
add_parsed-append none (some a) r q = refl
add_parsed-append none none r q = refl

pub parse-append :
    (m n : GoMap String String)
    → parse_node_annotations (m ++ n)
      ≡ append_parsed (parse_node_annotations m) (parse_node_annotations n)
unfolding parse_node_annotations
parse-append [] n = refl
parse-append ((k, v) ∷ m) n =
    ap (add_parsed (parse_spec_annotation k v) (parse_status_annotation k v)) (parse-append m n)
    ∙ add_parsed-append (parse_spec_annotation k v) (parse_status_annotation k v)
        (parse_node_annotations m) (parse_node_annotations n)

-- A key without the prefix is no spec annotation's.
pub not-spec :
    (k v : String)
    → has_prefix k annotation_gpu_spec_prefix ≡ false
    → parse_spec_annotation k v ≡ none
unfolding parse_spec_annotation
not-spec k v h = rw (h)

-- Writing the specs of a plan behind annotations in which each of its keys is new.
unfoldable pub SpecKeysNew : List SpecAnnotation → GoMap String String → Type 0
unfolding spec_key
SpecKeysNew [] m = Unit
SpecKeysNew (a ∷ rest) m =
    (get? (spec_key a) m ≡ none) × SpecKeysNew rest (put (spec_key a) (spec_value a) m)

pub record IsWritable (a : SpecAnnotation) : Type 0 where
  pub key : CanBeKey a.index a.profile_name
  pub value : IsInt64 a.quantity

parse-one :
    (a : SpecAnnotation)
    → IsWritable a
    → parse_node_annotations ((spec_key a, spec_value a) ∷ []) ≡ ([], a ∷ [])
unfolding parse_node_annotations
parse-one a h =
    ap (λ o. add_parsed o (parse_status_annotation (spec_key a) (spec_value a)) ([], []))
      (parse-spec_key a h.key h.value)

append_parsed_assoc :
    (r : List StatusAnnotation × List SpecAnnotation) (a : SpecAnnotation) (l : List SpecAnnotation)
    → append_parsed (append_parsed r ([], a ∷ [])) ([], l) ≡ append_parsed r ([], a ∷ l)
append_parsed_assoc r a l = rw (append-nil r.0, append-nil r.0, append_assoc r.1 (a ∷ []) l) refl

-- Writing new keys adds their specs to what is read, and nothing else.
pub write_specs_parsed :
    (l : List SpecAnnotation) (m : GoMap String String)
    → All IsWritable l
    → SpecKeysNew l m
    → parse_node_annotations (write_specs l m) ≡ append_parsed (parse_node_annotations m) ([], l)
unfolding write_specs SpecKeysNew
write_specs_parsed [] m h n =
    rw (append-nil (parse_node_annotations m).0, append-nil (parse_node_annotations m).1) refl
write_specs_parsed (a ∷ rest) m h n =
    write_specs_parsed rest (put (spec_key a) (spec_value a) m) h.1 n.1
    ∙ ap (λ r. append_parsed r ([], rest))
        (ap parse_node_annotations (put_new (spec_key a) (spec_value a) m n.0)
          ∙ parse-append m ((spec_key a, spec_value a) ∷ [])
          ∙ ap (append_parsed (parse_node_annotations m)) (parse-one a h.0))
    ∙ append_parsed_assoc (parse_node_annotations m) a rest
