-- ===== src/Base/Equality.antt =====
-- Go's `comparable` types: an equality test that is right.
use Prim.Native.Nat.{ℕ}
use Prim.Native.String.{String}
use mathlib.Core.Path.{◌≡◌}
use mathlib.Core.Logic.{◌↔◌}
use mathlib.Core.Bool.{Bool, true}
use text.Mathlib.Text.{◌==◌ as text_eq}
use text.Mathlib.TextEquality.{eq_iff}
use walkai_nos.Base.Tests.{nat_eq, nat_eq_iff}

pub record Comparable {ℓ} (K : Type ℓ) : Type ℓ where
  pub same : K → K → Bool
  pub same_iff : (j k : K) → (same j k ≡ true) ↔ (j ≡ k)

instance abbrev pub String_eq : Comparable String
String_eq = record { same = text_eq; same_iff = eq_iff }

instance abbrev pub ℕ_eq : Comparable ℕ
ℕ_eq = record { same = nat_eq; same_iff = nat_eq_iff }

module _ {ℓ} {K : Type ℓ} ⦃c : Comparable K⦄ where
  infix 50 ◌==◌
  abbrev pub ◌==◌ : K → K → Bool
  j == k = c.same j k

  pub ==_refl : (k : K) → (k == k) ≡ true
  ==_refl k = (c.same_iff k k).1 (λ i. k)
