-- ===== src/Text/Split.antt =====
-- strings.Split at "-", and the comparison of strings.ToLower with a word.
use Prim.Native.Char.{Char, code}
use walkai_nos.Base.{
  ◌≡◌, refl, ℕ, ◌+◌, Bool, true, false, ◌&&◌, List, [], ◌∷◌, String, nat_eq, leb, if◌then◌else◌,
  arith,
}
use walkai_nos.Text.{join}
use walkai_nos.Text.Decimal.{NoDash}

abbrev put_first : Char → List String → List String
put_first c [] = String.◌∷◌ c String.[] ∷ []
put_first c (part ∷ parts) = String.◌∷◌ c part ∷ parts

-- strings.Split(s, "-")
unfoldable pub split : String → List String
split String.[] = String.[] ∷ []
split (String.◌∷◌ c s) = if nat_eq (code c) b'-' then String.[] ∷ split s else put_first c (split s)

pub split-NoDash : (s : String) → NoDash s → split s ≡ s ∷ []
unfolding split
split-NoDash String.[] h = refl
split-NoDash (String.◌∷◌ c s) h = ground (arith, h.0, split-NoDash s h.1)

-- A part with no dash in it, and the text behind the dash that ends it.
pub split-join : (a b : String) → NoDash a → split (join a (String.◌∷◌ "-" b)) ≡ a ∷ split b
unfolding split join
split-join String.[] b h = refl
split-join (String.◌∷◌ c a) b h = ground (arith, h.0, split-join a b h.1)

-- unicode.ToLower, as far as it leads to a letter of ASCII: 8490 is the Kelvin sign.
abbrev pub lower : ℕ → ℕ
lower c = if leb b'A' c && leb c b'Z' then c + 32 else if nat_eq c 8490 then b'k' else c

-- strings.ToLower(s) == word, for a word of ASCII letters but "i", which U+0130 leads to.
unfoldable pub lower_is : String → String → Bool
lower_is String.[] String.[] = true
lower_is String.[] (String.◌∷◌ d w) = false
lower_is (String.◌∷◌ c s) String.[] = false
lower_is (String.◌∷◌ c s) (String.◌∷◌ d w) = nat_eq (lower (code c)) (code d) && lower_is s w
