-- ===== src/Partitioner/Plan/Written.antt =====
-- What the agent reads of the annotations that ApplyPartitioning writes.
use walkai_nos.Base.{
  ◌≡◌, refl, sym, subst, ◌∙◌, ap, true, Option, none, some, List, [], ◌∷◌, String, String_eq, ℤ,
  pos, All, arith, Bool-cases, Option-cases, inl, inr, ◌==◌, if◌then◌else◌,
}
use mathlib.Core.List.{append-nil}
use walkai_nos.GoMap.{GoMap, get?, put}
use walkai_nos.GoMap.Laws.{get?-put}
use walkai_nos.Text.{join, strip, has_prefix}
use walkai_nos.Annotation.{SpecAnnotation, StatusAnnotation}
use walkai_nos.Annotation.Format.{
  parse_spec_annotation, parse_status_annotation, parse_node_annotations, add_parsed, spec_key,
  spec_value, annotation_gpu_spec_prefix,
}
use mathlib.Core.List.{Perm}
use walkai_nos.Annotation.AnyOrder.{SameParsed, parse-SameParsed}
use walkai_nos.Annotation.RoundTrip.{parse-spec_key, strip-differs}
use walkai_nos.Annotation.Write.{
  delete_with_prefix, not-spec, write_specs, write_specs_parsed, SpecKeysNew, IsWritable,
  append_parsed,
}
use walkai_nos.Partitioner.Plan.{annotation_partitioning_plan, planned_annotations}

spec-not_status :
    (k v : String)
    → has_prefix k annotation_gpu_spec_prefix ≡ true
    → parse_status_annotation k v ≡ none
unfolding has_prefix parse_status_annotation join
spec-not_status k v h = elim (Option-cases (strip annotation_gpu_spec_prefix k)) [
  | inl e ↦ ground arith
  | inr (rest, e) ↦
      rw (strip-differs "nos.nebuly.com/s" "ec-gpu" "atus-gpu" k "p" "t" rest refl e) refl
]

dropped :
    (o : Option SpecAnnotation) (s : Option StatusAnnotation)
    (r : List StatusAnnotation × List SpecAnnotation)
    → s ≡ none
    → r.0 ≡ (add_parsed o s r).0
dropped (some a) s r h = refl
dropped none (some a) r h = cc (h)
dropped none none r h = refl

kept :
    (o : Option SpecAnnotation) (s : Option StatusAnnotation)
    (r : List StatusAnnotation × List SpecAnnotation)
    → o ≡ none
    → add_parsed o s (r.0, []) ≡ ((add_parsed o s r).0, [])
kept (some a) s r h = cc (h)
kept none (some a) r h = refl
kept none none r h = refl

-- Deleting the spec annotations leaves the status annotations, and no spec.
parse-delete :
    (m : GoMap String String)
    → parse_node_annotations (delete_with_prefix annotation_gpu_spec_prefix m)
      ≡ ((parse_node_annotations m).0, [])
unfolding parse_node_annotations delete_with_prefix
parse-delete [] = refl
parse-delete ((k, v) ∷ m) =
    let o = parse_spec_annotation k v in
    let s = parse_status_annotation k v in
    let r = parse_node_annotations m in
    elim (Bool-cases (has_prefix k annotation_gpu_spec_prefix)) [
      | inl e ↦ rw (e) (
          parse-delete m
          ∙ ap (λ (l : List StatusAnnotation). (l, [])) (dropped o s r (spec-not_status k v e)))
      | inr e ↦ rw (e) (ap (add_parsed o s) (parse-delete m) ∙ kept o s r (not-spec k v e))
    ]

delete-get? :
    (k : String) (m : GoMap String String)
    → has_prefix k annotation_gpu_spec_prefix ≡ true
    → get? k (delete_with_prefix annotation_gpu_spec_prefix m) ≡ none
unfolding get? delete_with_prefix
delete-get? k [] h = refl
delete-get? k ((j, v) ∷ m) h = elim (Bool-cases (has_prefix j annotation_gpu_spec_prefix)) [
  | inl e ↦ rw (e) (delete-get? k m h)
  | inr e ↦ rw (e) (ground (arith, String_eq.same_iff j k, delete-get? k m h))
]

-- An entry that is no annotation of a GPU can be written without changing what is read.
put-other :
    (k v : String) (m : GoMap String String)
    → ((w : String) → parse_spec_annotation k w ≡ none)
    → ((w : String) → parse_status_annotation k w ≡ none)
    → parse_node_annotations (put k v m) ≡ parse_node_annotations m
unfolding parse_node_annotations put
put-other k v [] f g = rw (f v, g v) refl
put-other k v ((j, w) ∷ m) f g = elim (Bool-cases (j == k)) [
  | inr e ↦ rw (e) (
      ap (add_parsed (parse_spec_annotation j w) (parse_status_annotation j w))
        (put-other k v m f g))
  | inl e ↦
      let j_eq = (String_eq.same_iff j k).0 e in
      rw (e) (
        subst
          (λ i.
            add_parsed (parse_spec_annotation i v) (parse_status_annotation i v)
              (parse_node_annotations m)
            ≡ add_parsed (parse_spec_annotation i w) (parse_status_annotation i w)
                (parse_node_annotations m))
          (sym j_eq) (rw (f v, g v, f w, g w) refl))
]

-- Two specs are of different GPUs or of different profiles.
abbrev pub DifferentSpecs : SpecAnnotation → SpecAnnotation → Type 0
DifferentSpecs a b = ¬ ((a.index ≡ b.index) × (a.profile_name ≡ b.profile_name))

abbrev pub AllDifferent : List SpecAnnotation → Type 0
AllDifferent [] = Unit
AllDifferent (a ∷ rest) = All (DifferentSpecs a) rest × AllDifferent rest

index_or_zero : Option SpecAnnotation → ℤ
index_or_zero none = pos 0
index_or_zero (some a) = a.index

profile_or_empty : Option SpecAnnotation → String
profile_or_empty none = ""
profile_or_empty (some a) = a.profile_name

different_keys :
    (a b : SpecAnnotation)
    → IsWritable a
    → IsWritable b
    → DifferentSpecs a b
    → ¬ (spec_key b ≡ spec_key a)
unfolding spec_key index_or_zero profile_or_empty
different_keys a b ha hb d e =
    let read_a = parse-spec_key a ha.key ha.value in
    let read_b = parse-spec_key (record b { quantity = a.quantity }) hb.key ha.value in
    let both = sym read_a ∙ ap (λ k. parse_spec_annotation k (spec_value a)) (sym e) ∙ read_b in
    d (ap index_or_zero both, ap profile_or_empty both)

-- In a map without the keys of the specs, writing them meets no key.
AllNew : List SpecAnnotation → GoMap String String → Type 0
AllNew l m = All (λ b. get? (spec_key b) m ≡ none) l

put-AllNew :
    (a : SpecAnnotation) (l : List SpecAnnotation) (m : GoMap String String)
    → IsWritable a
    → All IsWritable l
    → All (DifferentSpecs a) l
    → AllNew l m
    → AllNew l (put (spec_key a) (spec_value a) m)
unfolding AllNew
put-AllNew a [] m ha h d n = tt
put-AllNew a (b ∷ l) m ha h d n =
    let miss : get? (spec_key b) (put (spec_key a) (spec_value a) m) ≡ none =
      get?-put (spec_key a) (spec_key b) (spec_value a) m ∙ read in
    (miss, put-AllNew a l m ha h.1 d.1 n.1)
  where
    read : (if spec_key a == spec_key b then some (spec_value a) else get? (spec_key b) m) ≡ none
    read = elim (Bool-cases (spec_key a == spec_key b)) [
      | inl e ↦
          elim (different_keys a b ha h.0 d.0
            (sym ((String_eq.same_iff (spec_key a) (spec_key b)).0 e))) [ ]
      | inr e ↦ rw (e) n.0
    ]

keys_new :
    (l : List SpecAnnotation) (m : GoMap String String)
    → All IsWritable l
    → AllDifferent l
    → AllNew l m
    → SpecKeysNew l m
unfolding AllNew SpecKeysNew
keys_new [] m h d n = tt
keys_new (a ∷ l) m h d n =
    (n.0, keys_new l (put (spec_key a) (spec_value a) m) h.1 d.1 (put-AllNew a l m h.0 h.1 d.0 n.1))

deleted-AllNew :
    (l : List SpecAnnotation) (m : GoMap String String)
    → AllNew l (delete_with_prefix annotation_gpu_spec_prefix m)
unfolding AllNew spec_key has_prefix join strip
deleted-AllNew [] m = tt
deleted-AllNew (a ∷ l) m = (delete-get? (spec_key a) m refl, deleted-AllNew l m)

-- Read in the order in which the model writes them, the specs are those of the partitioning, and the
-- status annotations those that were there.
pub parse-planned_in_order :
    (specs : List SpecAnnotation) (plan_id : String) (m : GoMap String String)
    → All IsWritable specs
    → AllDifferent specs
    → parse_node_annotations (planned_annotations specs plan_id m)
      ≡ ((parse_node_annotations m).0, specs)
unfolding parse_spec_annotation parse_status_annotation has_prefix strip
parse-planned_in_order specs plan_id m h d =
    let left = delete_with_prefix annotation_gpu_spec_prefix m in
    put-other annotation_partitioning_plan plan_id (write_specs specs left) (λ w. refl) (λ w. refl)
    ∙ write_specs_parsed specs left h (keys_new specs left h d (deleted-AllNew specs m))
    ∙ ap (λ r. append_parsed r ([], specs)) (parse-delete m)
    ∙ rw (append-nil (parse_node_annotations m).0) refl

-- Of the annotations that ApplyPartitioning writes, in whatever order the map gives them, the agent
-- reads just the specs of the partitioning and the status annotations that were there, each as often;
-- for specs of different GPUs or profiles, with an index that is not negative, a profile without
-- dashes, and numbers of 64 bits.
pub parse-planned_annotations :
    (specs : List SpecAnnotation) (plan_id : String) (m written : GoMap String String)
    → All IsWritable specs
    → AllDifferent specs
    → Perm written (planned_annotations specs plan_id m)
    → SameParsed (parse_node_annotations written) ((parse_node_annotations m).0, specs)
parse-planned_annotations specs plan_id m written h d p =
    subst (SameParsed (parse_node_annotations written)) (parse-planned_in_order specs plan_id m h d)
      (parse-SameParsed p)
