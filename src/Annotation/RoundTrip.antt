-- ===== src/Annotation/RoundTrip.antt =====
-- Reading an annotation that was written gives it back.
use Prim.Native.Char.{Char, code}
use walkai_nos.Base.{
  none, nat_eq, false, ◌≡◌, refl, ◌∙◌, ap, some, [], ◌∷◌, String, ℤ, pos, negsuc, ◌≤ℤ◌, arith,
}
use walkai_nos.Text.{join, strip}
use walkai_nos.Text.Decimal.{atoi, itoa, atoi-itoa, IsInt64, NoDash, print_ℕ-NoDash}
use walkai_nos.Text.Split.{split, split-NoDash, split-join}
use walkai_nos.Device.{Status, used, free, unknown}
use walkai_nos.Annotation.{SpecAnnotation, StatusAnnotation}
use walkai_nos.Annotation.Format.{
  spec_of_parts, status_of_parts, parse_status, status_text, parse_spec_annotation,
  parse_status_annotation, spec_key, spec_value, status_key, status_value, index_with_profile,
}

-- What a key can carry: an index that is not negative, and a profile with no dash in it.
abbrev pub CanBeKey : ℤ → String → Type 0
CanBeKey index profile = (pos 0 ≤ℤ index) × IsInt64 index × NoDash profile

itoa-NoDash : (z : ℤ) → pos 0 ≤ℤ z → NoDash (itoa z)
unfolding itoa
itoa-NoDash (pos n) h = print_ℕ-NoDash n
itoa-NoDash (negsuc n) h = absurd (omega arith)

split-index :
    (i : ℤ) (p : String) → pos 0 ≤ℤ i → NoDash p → split (index_with_profile i p) ≡ itoa i ∷ p ∷ []
unfolding index_with_profile
split-index i p hi hp =
    split-join (itoa i) p (itoa-NoDash i hi) ∙ ap (λ l. itoa i ∷ l) (split-NoDash p hp)

spec_read :
    (value number : String) {q i : ℤ} {p : String}
    → atoi value ≡ some q
    → atoi number ≡ some i
    → spec_of_parts ("nos.nebuly.com/spec" ∷ "gpu" ∷ number ∷ p ∷ []) value
      ≡ some (record { profile_name = p; index = i; quantity = q })
spec_read value number hq hi = rw (hq, hi) refl

status_read :
    (value number word : String) {q i : ℤ} {p : String} {s : Status}
    → atoi value ≡ some q
    → atoi number ≡ some i
    → parse_status word ≡ some s
    → status_of_parts ("nos.nebuly.com/status" ∷ "gpu" ∷ number ∷ p ∷ word ∷ []) value
      ≡ some (record { profile_name = p; index = i; status = s; quantity = q })
status_read value number word hq hi hs = rw (hq, hi, hs) refl

-- ParseSpecAnnotation of String and GetValue is the annotation, for an index that is not negative, a
-- profile without dashes, and numbers of 64 bits.
pub parse-spec_key :
    (a : SpecAnnotation)
    → CanBeKey a.index a.profile_name
    → IsInt64 a.quantity
    → parse_spec_annotation (spec_key a) (spec_value a) ≡ some a
unfolding parse_spec_annotation spec_key
parse-spec_key a h q =
    let parts = split-index a.index a.profile_name h.0 h.2 in
    ap (λ l. spec_of_parts ("nos.nebuly.com/spec" ∷ "gpu" ∷ l) (spec_value a)) parts
    ∙ spec_read (spec_value a) (itoa a.index) (atoi-itoa a.quantity q) (atoi-itoa a.index h.1)

parse_status-status_text : (s : Status) → parse_status (status_text s) ≡ some s
unfolding parse_status
parse_status-status_text used = refl
parse_status-status_text free = refl
parse_status-status_text unknown = refl

split-status : (s : Status) → split (status_text s) ≡ status_text s ∷ []
unfolding split
split-status used = refl
split-status free = refl
split-status unknown = refl

-- ParseStatusAnnotation of String and GetValue is the annotation, for an index that is not
-- negative, a profile without dashes, and numbers of 64 bits.
pub parse-status_key :
    (a : StatusAnnotation)
    → CanBeKey a.index a.profile_name
    → IsInt64 a.quantity
    → parse_status_annotation (status_key a) (status_value a) ≡ some a
unfolding parse_status_annotation status_key join
parse-status_key a h q =
    let behind = join a.profile_name (join "-" (status_text a.status)) in
    let parts : split (join (itoa a.index) (join "-" behind))
        ≡ itoa a.index ∷ a.profile_name ∷ status_text a.status ∷ [] =
      split-join (itoa a.index) behind (itoa-NoDash a.index h.0)
      ∙ ap (λ l. itoa a.index ∷ l)
          (split-join a.profile_name (status_text a.status) h.2
            ∙ ap (λ l. a.profile_name ∷ l) (split-status a.status)) in
    ap (λ l. status_of_parts ("nos.nebuly.com/status" ∷ "gpu" ∷ l) (status_value a)) parts
    ∙ status_read (status_value a) (itoa a.index) (status_text a.status) (atoi-itoa a.quantity q)
        (atoi-itoa a.index h.1) (parse_status-status_text a.status)

-- Text that has a prefix does not have another one that differs from it at some character.
pub strip-differs :
    (a s t k : String) (c d : Char) (rest : String)
    → nat_eq (code c) (code d) ≡ false
    → strip (join a (String.◌∷◌ c s)) k ≡ some rest
    → strip (join a (String.◌∷◌ d t)) k ≡ none
unfolding strip join
strip-differs String.[] s t String.[] c d rest n h = refl
strip-differs String.[] s t (String.◌∷◌ e k) c d rest n h = ground arith
strip-differs (String.◌∷◌ b a) s t String.[] c d rest n h = refl
strip-differs (String.◌∷◌ b a) s t (String.◌∷◌ e k) c d rest n h =
    ground (arith, strip-differs a s t k c d rest n)
