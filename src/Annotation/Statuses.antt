-- ===== src/Annotation/Statuses.antt =====
-- What is read of a node's annotations when its status annotations are written anew, as the reporters
-- of internal/controllers/migagent/reporter.go and internal/controllers/gpuagent/reporter.go do.
use walkai_nos.Base.{
  ◌≡◌, refl, sym, ◌∙◌, ap, true, false, Option, none, some, List, [], ◌∷◌, ◌++◌, map, String,
  String_eq, ℤ, pos, All, arith, Bool-cases, Option-cases, inl, inr, ◌==◌,
}
use mathlib.Core.List.{append-nil, append_assoc}
use walkai_nos.GoMap.{GoMap, get?}
use walkai_nos.Text.{join, strip, has_prefix}
use walkai_nos.Text.Decimal.{IsInt64}
use walkai_nos.Device.{Status, used}
use walkai_nos.Annotation.{SpecAnnotation, StatusAnnotation}
use walkai_nos.Annotation.Format.{
  parse_spec_annotation, parse_status_annotation, parse_node_annotations, add_parsed, status_key,
  status_value, annotation_gpu_status_prefix,
}
use walkai_nos.Annotation.RoundTrip.{CanBeKey, parse-status_key, strip-differs}
use walkai_nos.Annotation.Write.{delete_with_prefix, write_statuses, put_new, parse-append}

pub record IsReportable (a : StatusAnnotation) : Type 0 where
  pub key : CanBeKey a.index a.profile_name
  pub value : IsInt64 a.quantity

abbrev entry : StatusAnnotation → String × String
entry a = (status_key a, status_value a)

abbrev NewIn : GoMap String String → StatusAnnotation → Type 0
NewIn m a = get? (status_key a) m ≡ none

abbrev OtherKey : StatusAnnotation → StatusAnnotation → Type 0
OtherKey a b = (status_key a == status_key b) ≡ false

abbrev KeysDiffer : List StatusAnnotation → Type 0
KeysDiffer [] = Unit
KeysDiffer (a ∷ rest) = All (OtherKey a) rest × KeysDiffer rest

get?-append_other :
    (k j v : String) (m : GoMap String String)
    → (j == k) ≡ false
    → get? k m ≡ none
    → get? k (m ++ (j, v) ∷ []) ≡ none
unfolding get?
get?-append_other k j v [] e h = rw e refl
get?-append_other k j v ((i, w) ∷ m) e h = ground (arith, get?-append_other k j v m e)

All-append_other :
    (a : StatusAnnotation) (l : List StatusAnnotation) (m : GoMap String String)
    → All (OtherKey a) l
    → All (NewIn m) l
    → All (NewIn (m ++ entry a ∷ [])) l
All-append_other a [] m o n = tt
All-append_other a (b ∷ l) m o n = (
  get?-append_other (status_key b) (status_key a) (status_value a) m o.0 n.0,
  All-append_other a l m o.1 n.1,
)

-- Entries with new and different keys are written behind the others.
write_statuses_new :
    (l : List StatusAnnotation) (m : GoMap String String)
    → All (NewIn m) l
    → KeysDiffer l
    → write_statuses l m ≡ m ++ map entry l
unfolding write_statuses
write_statuses_new [] m n d = sym (append-nil m)
write_statuses_new (a ∷ l) m n d =
    ap (write_statuses l) (put_new (status_key a) (status_value a) m n.0)
    ∙ write_statuses_new l (m ++ entry a ∷ []) (All-append_other a l m d.0 n.1) d.1
    ∙ append_assoc m (entry a ∷ []) (map entry l)

status_key-not_spec :
    (a : StatusAnnotation) (v : String) → parse_spec_annotation (status_key a) v ≡ none
unfolding parse_spec_annotation status_key has_prefix join strip
status_key-not_spec a v = refl

parse_entries :
    (l : List StatusAnnotation)
    → All IsReportable l
    → parse_node_annotations (map entry l) ≡ (l, [])
unfolding parse_node_annotations
parse_entries [] h = refl
parse_entries (a ∷ l) h =
    rw
      (
        status_key-not_spec a (status_value a),
        parse-status_key a h.0.key h.0.value,
        parse_entries l h.1,
      )
      refl

status-not_spec :
    (k v : String)
    → has_prefix k annotation_gpu_status_prefix ≡ true
    → parse_spec_annotation k v ≡ none
unfolding has_prefix parse_spec_annotation join
status-not_spec k v h = elim (Option-cases (strip annotation_gpu_status_prefix k)) [
  | inl e ↦ ground arith
  | inr (rest, e) ↦
      rw (strip-differs "nos.nebuly.com/s" "atus-gpu" "ec-gpu" k "t" "p" rest refl e) refl
]

not-status :
    (k v : String)
    → has_prefix k annotation_gpu_status_prefix ≡ false
    → parse_status_annotation k v ≡ none
unfolding parse_status_annotation
not-status k v h = rw (h)

no_spec_kept :
    (o : Option SpecAnnotation) (s : Option StatusAnnotation)
    (r : List StatusAnnotation × List SpecAnnotation)
    → o ≡ none
    → r.1 ≡ (add_parsed o s r).1
no_spec_kept (some a) s r h = cc (h)
no_spec_kept none (some a) r h = refl
no_spec_kept none none r h = refl

no_status_kept :
    (o : Option SpecAnnotation) (s : Option StatusAnnotation)
    (r : List StatusAnnotation × List SpecAnnotation)
    → s ≡ none
    → add_parsed o s ([], r.1) ≡ ([], (add_parsed o s r).1)
no_status_kept (some a) s r h = refl
no_status_kept none (some a) r h = cc (h)
no_status_kept none none r h = refl

-- Deleting the status annotations leaves the specs, and no status.
parse-delete_statuses :
    (m : GoMap String String)
    → parse_node_annotations (delete_with_prefix annotation_gpu_status_prefix m)
      ≡ ([], (parse_node_annotations m).1)
unfolding parse_node_annotations delete_with_prefix
parse-delete_statuses [] = refl
parse-delete_statuses ((k, v) ∷ m) =
    let o = parse_spec_annotation k v in
    let s = parse_status_annotation k v in
    let r = parse_node_annotations m in
    elim (Bool-cases (has_prefix k annotation_gpu_status_prefix)) [
      | inl e ↦ rw (e) (
          parse-delete_statuses m
          ∙ ap (λ (l : List SpecAnnotation). ([], l)) (no_spec_kept o s r (status-not_spec k v e)))
      | inr e ↦
          rw (e) (
            ap (add_parsed o s) (parse-delete_statuses m) ∙ no_status_kept o s r (not-status k v e))
    ]

deleted-get? :
    (k : String) (m : GoMap String String)
    → has_prefix k annotation_gpu_status_prefix ≡ true
    → get? k (delete_with_prefix annotation_gpu_status_prefix m) ≡ none
unfolding get? delete_with_prefix
deleted-get? k [] h = refl
deleted-get? k ((j, v) ∷ m) h = elim (Bool-cases (has_prefix j annotation_gpu_status_prefix)) [
  | inl e ↦ rw (e) (deleted-get? k m h)
  | inr e ↦ rw (e) (ground (arith, String_eq.same_iff j k, deleted-get? k m h))
]

deleted-NewIn :
    (l : List StatusAnnotation) (m : GoMap String String)
    → All (NewIn (delete_with_prefix annotation_gpu_status_prefix m)) l
unfolding status_key has_prefix join strip
deleted-NewIn [] m = tt
deleted-NewIn (a ∷ l) m = (deleted-get? (status_key a) m refl, deleted-NewIn l m)

-- Two status annotations are of different GPUs, profiles or statuses.
abbrev pub DifferentStatuses : StatusAnnotation → StatusAnnotation → Type 0
DifferentStatuses a b =
    ¬ ((a.index ≡ b.index) × (a.profile_name ≡ b.profile_name) × (a.status ≡ b.status))

abbrev pub AllDifferentStatuses : List StatusAnnotation → Type 0
AllDifferentStatuses [] = Unit
AllDifferentStatuses (a ∷ rest) = All (DifferentStatuses a) rest × AllDifferentStatuses rest

index_or_zero : Option StatusAnnotation → ℤ
index_or_zero none = pos 0
index_or_zero (some a) = a.index

profile_or_empty : Option StatusAnnotation → String
profile_or_empty none = ""
profile_or_empty (some a) = a.profile_name

status_or_used : Option StatusAnnotation → Status
status_or_used none = used
status_or_used (some a) = a.status

different_keys :
    (a b : StatusAnnotation)
    → IsReportable a
    → IsReportable b
    → DifferentStatuses a b
    → OtherKey a b
unfolding status_key index_or_zero profile_or_empty status_or_used
different_keys a b ha hb d = elim (Bool-cases (status_key a == status_key b)) [
  | inr other ↦ other
  | inl same ↦
      let read_a = parse-status_key a ha.key ha.value in
      let read_b = parse-status_key (record b { quantity = a.quantity }) hb.key ha.value in
      let e = (String_eq.same_iff (status_key a) (status_key b)).0 same in
      let both = sym read_a ∙ ap (λ k. parse_status_annotation k (status_value a)) e ∙ read_b in
      elim (d (ap index_or_zero both, ap profile_or_empty both, ap status_or_used both)) [ ]
]

All-OtherKey :
    (a : StatusAnnotation) (l : List StatusAnnotation)
    → IsReportable a
    → All IsReportable l
    → All (DifferentStatuses a) l
    → All (OtherKey a) l
All-OtherKey a [] ha h d = tt
All-OtherKey a (b ∷ l) ha h d = (different_keys a b ha h.0 d.0, All-OtherKey a l ha h.1 d.1)

keys_differ :
    (l : List StatusAnnotation) → All IsReportable l → AllDifferentStatuses l → KeysDiffer l
keys_differ [] h d = tt
keys_differ (a ∷ l) h d = (All-OtherKey a l h.0 h.1 d.0, keys_differ l h.1 d.1)

-- Of the annotations that a reporter writes, the statuses are those reported, in their order, and the
-- specs are those that were there; for statuses of different GPUs, profiles or kinds, with an index that
-- is not negative, a profile without dashes, and numbers of 64 bits.
pub parse-written_statuses :
    (l : List StatusAnnotation) (m : GoMap String String)
    → All IsReportable l
    → AllDifferentStatuses l
    → parse_node_annotations (write_statuses l (delete_with_prefix annotation_gpu_status_prefix m))
      ≡ (l, (parse_node_annotations m).1)
parse-written_statuses l m h d =
    let left = delete_with_prefix annotation_gpu_status_prefix m in
    ap parse_node_annotations (write_statuses_new l left (deleted-NewIn l m) (keys_differ l h d))
    ∙ parse-append left (map entry l)
    ∙ rw (parse-delete_statuses m, parse_entries l h, append-nil (parse_node_annotations m).1) refl
