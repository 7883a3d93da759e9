-- ===== src/Annotation/Format.antt =====
-- The annotations of a node as text: ParseSpecAnnotation, ParseStatusAnnotation, ParseNodeAnnotations,
-- String and GetValue of pkg/gpu/annotation.go, and ParseStatus of pkg/resource/device.go.
use walkai_nos.Base.{Option, none, some, List, [], ◌∷◌, String, ℤ, if◌then◌else◌, int_eq, String_eq}
use walkai_nos.GoMap.{GoMap}
use walkai_nos.Text.{join, has_prefix}
use walkai_nos.Text.Decimal.{atoi, itoa}
use walkai_nos.Text.Split.{split, lower_is}
use walkai_nos.Device.{Status, used, free, unknown}
use walkai_nos.Annotation.{SpecAnnotation, StatusAnnotation}

infixl 5 ◌>>=◌
abbrev pub ◌>>=◌ {ℓ κ} : {A : Type ℓ} {B : Type κ} → Option A → (A → Option B) → Option B
none >>= f = none
some a >>= f = f a

abbrev pub annotation_gpu_spec_prefix : String
annotation_gpu_spec_prefix = "nos.nebuly.com/spec-gpu"

abbrev pub annotation_gpu_status_prefix : String
annotation_gpu_status_prefix = "nos.nebuly.com/status-gpu"

-- `none` is the error.
unfoldable pub parse_status : String → Option Status
unfolding lower_is
parse_status s =
    if lower_is s "free"
    then some free
    else if lower_is s "used"
    then some used
    else if lower_is s "unknown"
    then some unknown
    else none

abbrev pub status_text : Status → String
status_text used = "used"
status_text free = "free"
status_text unknown = "unknown"

-- What is read of the parts of a key; `none` is an error.
abbrev pub spec_of_parts : List String → String → Option SpecAnnotation
spec_of_parts (_ ∷ _ ∷ number ∷ profile ∷ []) value = do
  quantity ← atoi value
  index ← atoi number
  some (record { profile_name = profile; index = index; quantity = quantity })
spec_of_parts _ value = none

unfoldable pub parse_spec_annotation : String → String → Option SpecAnnotation
unfolding has_prefix split atoi
parse_spec_annotation key value =
    if has_prefix key annotation_gpu_spec_prefix then spec_of_parts (split key) value else none

abbrev pub status_of_parts : List String → String → Option StatusAnnotation
status_of_parts (_ ∷ _ ∷ number ∷ profile ∷ word ∷ []) value = do
  quantity ← atoi value
  index ← atoi number
  status ← parse_status word
  some (record { profile_name = profile; index = index; status = status; quantity = quantity })
status_of_parts _ value = none

unfoldable pub parse_status_annotation : String → String → Option StatusAnnotation
unfolding has_prefix split atoi parse_status
parse_status_annotation key value =
    if has_prefix key annotation_gpu_status_prefix then status_of_parts (split key) value else none

-- One annotation's part in what ParseNodeAnnotations returns.
abbrev pub add_parsed :
    Option SpecAnnotation
    → Option StatusAnnotation
    → List StatusAnnotation × List SpecAnnotation
    → List StatusAnnotation × List SpecAnnotation
add_parsed (some a) status r = (r.0, a ∷ r.1)
add_parsed none (some a) r = (a ∷ r.0, r.1)
add_parsed none none r = r

-- The two results of ParseNodeAnnotations for the annotations of a node.
unfoldable pub parse_node_annotations :
    GoMap String String → List StatusAnnotation × List SpecAnnotation
parse_node_annotations [] = ([], [])
parse_node_annotations ((k, v) ∷ rest) =
    add_parsed (parse_spec_annotation k v) (parse_status_annotation k v)
      (parse_node_annotations rest)

-- The index and the profile of an annotation, with the dash between them.
unfoldable pub index_with_profile : ℤ → String → String
unfolding itoa join
index_with_profile index profile = join (itoa index) (join "-" profile)

unfoldable pub spec_key : SpecAnnotation → String
unfolding join index_with_profile
spec_key a = join "nos.nebuly.com/spec-gpu-" (index_with_profile a.index a.profile_name)

unfoldable pub status_key : StatusAnnotation → String
unfolding join itoa
status_key a =
    join "nos.nebuly.com/status-gpu-"
      (join (itoa a.index) (join "-" (join a.profile_name (join "-" (status_text a.status)))))

abbrev pub spec_value : SpecAnnotation → String
unfolding itoa
spec_value a = itoa a.quantity

abbrev pub status_value : StatusAnnotation → String
unfolding itoa
status_value a = itoa a.quantity

-- GetIndexWithProfile of the two kinds of annotation
abbrev pub spec_index_with_profile : SpecAnnotation → String
unfolding index_with_profile
spec_index_with_profile a = index_with_profile a.index a.profile_name

abbrev pub status_index_with_profile : StatusAnnotation → String
unfolding index_with_profile
status_index_with_profile a = index_with_profile a.index a.profile_name
