-- ===== src/Annotation/AnyOrder.antt =====
-- ParseNodeAnnotations of pkg/gpu/annotation.go goes through a map, whose order Go leaves open: another
-- order of the entries gives the same annotations in another order.
use walkai_nos.Base.{◌≡◌, subst, none, some, Option, List, [], ◌∷◌, String, arith, Bool, ◌∙◌, refl}
use mathlib.Core.List.{Perm, Permᴰ}
use native.Mathlib.Nat.{ℕ_set}
use mathlib.Core.List.Perm
use mathlib.Core.Logic.{∥∥₁_elim, ∥∥₁_prop}
use walkai_nos.GoMap.{GoMap}
use walkai_nos.GoMap.Groups.{count}
use walkai_nos.Annotation.{SpecAnnotation, StatusAnnotation}
use walkai_nos.Annotation.Format.{
  parse_spec_annotation, parse_status_annotation, parse_node_annotations, add_parsed,
}

abbrev Parsed : Type 0
Parsed = List StatusAnnotation × List SpecAnnotation

-- The same status annotations and the same specs, each as often.
abbrev pub SameParsed : Parsed → Parsed → Type 0
SameParsed r q = Perm r.0 q.0 × Perm r.1 q.1

SameParsed-trans : (r q p : Parsed) → SameParsed r q → SameParsed q p → SameParsed r p
SameParsed-trans r q p h k = (Perm.trans h.0 k.0, Perm.trans h.1 k.1)

add_parsed-SameParsed :
    (o : Option SpecAnnotation) (s : Option StatusAnnotation) (r q : Parsed)
    → SameParsed r q
    → SameParsed (add_parsed o s r) (add_parsed o s q)
add_parsed-SameParsed (some a) s r q h = (h.0, Perm.cons a h.1)
add_parsed-SameParsed none (some a) r q h = (Perm.cons a h.0, h.1)
add_parsed-SameParsed none none r q h = h

add_parsed_swap :
    (o p : Option SpecAnnotation) (s t : Option StatusAnnotation) (r : Parsed)
    → SameParsed (add_parsed o s (add_parsed p t r)) (add_parsed p t (add_parsed o s r))
add_parsed_swap (some a) (some b) s t r = (Perm.refl r.0, Perm.swap b a r.1)
add_parsed_swap (some a) none s (some b) r = (Perm.refl (b ∷ r.0), Perm.refl (a ∷ r.1))
add_parsed_swap (some a) none s none r = (Perm.refl r.0, Perm.refl (a ∷ r.1))
add_parsed_swap none (some b) (some a) t r = (Perm.refl (a ∷ r.0), Perm.refl (b ∷ r.1))
add_parsed_swap none (some b) none t r = (Perm.refl r.0, Perm.refl (b ∷ r.1))
add_parsed_swap none none (some a) (some b) r = (Perm.swap b a r.0, Perm.refl r.1)
add_parsed_swap none none (some a) none r = (Perm.refl (a ∷ r.0), Perm.refl r.1)
add_parsed_swap none none none (some b) r = (Perm.refl (b ∷ r.0), Perm.refl r.1)
add_parsed_swap none none none none r = (Perm.refl r.0, Perm.refl r.1)

parse_reordered :
    {m n : GoMap String String}
    → Permᴰ m n
    → SameParsed (parse_node_annotations m) (parse_node_annotations n)
unfolding parse_node_annotations
parse_reordered Permᴰ.nil = (Perm.refl [], Perm.refl [])
parse_reordered (Permᴰ.cons {a} {b} {l₁} {l₂} e d) =
    subst (λ x. SameParsed (parse_node_annotations (a ∷ l₁)) (parse_node_annotations (x ∷ l₂))) e
      (add_parsed-SameParsed (parse_spec_annotation a.0 a.1) (parse_status_annotation a.0 a.1)
        (parse_node_annotations l₁) (parse_node_annotations l₂) (parse_reordered d))
parse_reordered (Permᴰ.swap {a} {b} {a'} {b'} {l} e f) =
    subst
      (λ x. SameParsed (parse_node_annotations (a ∷ b ∷ l)) (parse_node_annotations (a' ∷ x ∷ l))) e
      (subst
        (λ x. SameParsed (parse_node_annotations (a ∷ b ∷ l)) (parse_node_annotations (x ∷ a ∷ l)))
        f
        (add_parsed_swap (parse_spec_annotation a.0 a.1) (parse_spec_annotation b.0 b.1)
          (parse_status_annotation a.0 a.1) (parse_status_annotation b.0 b.1)
          (parse_node_annotations l)))
parse_reordered (Permᴰ.trans {l₁} {l₂} {l₃} d k) =
    SameParsed-trans (parse_node_annotations l₁) (parse_node_annotations l₂)
      (parse_node_annotations l₃) (parse_reordered d) (parse_reordered k)

pub parse-SameParsed :
    {m n : GoMap String String}
    → Perm m n
    → SameParsed (parse_node_annotations m) (parse_node_annotations n)
parse-SameParsed p = (
  ∥∥₁_elim p ∥∥₁_prop (λ d. (parse_reordered d).0),
  ∥∥₁_elim p ∥∥₁_prop (λ d. (parse_reordered d).1),
)

-- Lists with the same elements hold each as often.
count_reordered {ℓ} :
    {A : Type ℓ} {xs ys : List A} (test : A → Bool) → Permᴰ xs ys → count test xs ≡ count test ys
unfolding count
count_reordered test Permᴰ.nil = refl
count_reordered test (Permᴰ.cons {a} {b} {l₁} {l₂} e d) =
    subst (λ x. count test (a ∷ l₁) ≡ count test (x ∷ l₂)) e
      (ground (arith, count_reordered test d))
count_reordered test (Permᴰ.swap {a} {b} {a'} {b'} {l} e f) =
    subst (λ x. count test (a ∷ b ∷ l) ≡ count test (a' ∷ x ∷ l)) e
      (subst (λ x. count test (a ∷ b ∷ l) ≡ count test (x ∷ a ∷ l)) f (ground arith))
count_reordered test (Permᴰ.trans d k) = count_reordered test d ∙ count_reordered test k

pub count-Perm {ℓ} :
    {A : Type ℓ} {xs ys : List A} (test : A → Bool) → Perm xs ys → count test xs ≡ count test ys
count-Perm {xs} {ys} test p =
    ∥∥₁_elim p (ℕ_set (count test xs) (count test ys)) (count_reordered test)
