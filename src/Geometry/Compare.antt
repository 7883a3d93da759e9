-- ===== src/Geometry/Compare.antt =====
-- What the program relies on of `cmp.Equal` of go-cmp, for two maps, which is not code of the
-- repository: two maps are equal when they hold the same keys with the same values.
use walkai_nos.Base.{
  ◌≡◌, refl, Bool, true, ◌&&◌, [], ◌∷◌, Option, none, some, ℤ, eq_ℤ, eq_ℤ_iff, arith, Comparable,
}
use walkai_nos.GoMap.{GoMap, get?}

abbrev pub SameEntries {ℓ} : {K : Type ℓ} ⦃e : Comparable K⦄ → GoMap K ℤ → GoMap K ℤ → Type ℓ
SameEntries {K} a b = (k : K) → get? k a ≡ get? k b

pub record MapCompare {ℓ} (K : Type ℓ) ⦃e : Comparable K⦄ : Type ℓ where
  pub equal : GoMap K ℤ → GoMap K ℤ → Bool
  pub equal_sound : (a b : GoMap K ℤ) → equal a b ≡ true → SameEntries a b
  pub equal_complete : (a b : GoMap K ℤ) → SameEntries a b → equal a b ≡ true

-- A comparison that satisfies it: look up the keys of both maps in both.
abbrev pub same_option : Option ℤ → Option ℤ → Bool
same_option none none = true
same_option (some a) (some b) = eq_ℤ a b
same_option _ _ = Bool.false

same_option_sound : (a b : Option ℤ) → same_option a b ≡ true → a ≡ b
same_option_sound none none h = refl
same_option_sound (some a) (some b) h = ground (arith, eq_ℤ_iff a b)
same_option_sound none (some b) h = cc
same_option_sound (some a) none h = cc

same_option_refl : (a : Option ℤ) → same_option a a ≡ true
same_option_refl none = refl
same_option_refl (some a) = (eq_ℤ_iff a a).1 refl

module _ {ℓ} {K : Type ℓ} ⦃e : Comparable K⦄ where
  unfoldable pub agree_on : GoMap K ℤ → GoMap K ℤ → GoMap K ℤ → Bool
  agree_on a b [] = true
  agree_on a b ((k, q) ∷ m) = same_option (get? k a) (get? k b) && agree_on a b m

  agree_on_sound :
      (a b m : GoMap K ℤ) (k : K) (q : ℤ)
      → agree_on a b m ≡ true
      → get? k m ≡ some q
      → get? k a ≡ get? k b
  unfolding agree_on get?
  agree_on_sound a b [] k q h f = cc
  agree_on_sound a b ((j, w) ∷ m) k q h f =
      ground
        (arith, e.same_iff j k, agree_on_sound a b m k q, same_option_sound (get? j a) (get? j b))

  agree_on_complete : (a b m : GoMap K ℤ) → SameEntries a b → agree_on a b m ≡ true
  unfolding agree_on
  agree_on_complete a b [] h = refl
  agree_on_complete a b ((k, q) ∷ m) h =
      ground (arith, h k, agree_on_complete a b m h, same_option_refl (get? k b))

  unfoldable pub both_agree : GoMap K ℤ → GoMap K ℤ → Bool
  unfolding agree_on
  both_agree a b = agree_on a b a && agree_on a b b

  pub both_agree_sound : (a b : GoMap K ℤ) → both_agree a b ≡ true → SameEntries a b
  unfolding both_agree
  both_agree_sound a b h k = look (get? k a) (get? k b) refl refl
    where
      look : (x y : Option ℤ) → get? k a ≡ x → get? k b ≡ y → get? k a ≡ get? k b
      look none none p q = cc
      look (some x) y p q = agree_on_sound a b a k x (ground arith) p
      look none (some y) p q = agree_on_sound a b b k y (ground arith) q

  pub both_agree_complete : (a b : GoMap K ℤ) → SameEntries a b → both_agree a b ≡ true
  unfolding both_agree
  both_agree_complete a b h = ground (arith, agree_on_complete a b a h, agree_on_complete a b b h)

  abbrev pub lookup_compare : MapCompare K
  unfolding both_agree
  lookup_compare = record {
    equal = both_agree;
    equal_sound = both_agree_sound;
    equal_complete = both_agree_complete;
  }
