-- ===== src/Text.antt =====
-- The text functions that the program uses of Go's standard library: joining, prefixes, and the
-- regular expressions `\d+g\.\d+gb` and `nvidia\.com\/mig-\d+g\.\d+gb` of pkg/constant/constants.go.
-- In these a run of digits ends at the first character that is none, so matching needs no backtracking.
pub mod Decimal
pub mod Split
use Prim.Native.Char.{code}
use walkai_nos.Base.{
  ℕ, Bool, true, false, ◌&&◌, ◌||◌, Option, none, some, String, leb, nat_eq, if◌then◌else◌,
}

unfoldable pub join : String → String → String
join String.[] t = t
join (String.◌∷◌ c s) t = String.◌∷◌ c (join s t)

-- What follows a prefix.
unfoldable pub strip : String → String → Option String
strip String.[] s = some s
strip (String.◌∷◌ c p) String.[] = none
strip (String.◌∷◌ c p) (String.◌∷◌ d s) = if nat_eq (code c) (code d) then strip p s else none

-- strings.TrimPrefix
unfoldable pub trim_prefix : String → String → String
unfolding strip
trim_prefix s p = elim (strip p s) [ none ↦ s | some rest ↦ rest ]

-- strings.HasPrefix
unfoldable pub has_prefix : String → String → Bool
unfolding strip
has_prefix s p = elim (strip p s) [ none ↦ false | some _ ↦ true ]

abbrev is_digit : ℕ → Bool
is_digit c = leb b'0' c && leb c b'9'

unfoldable pub drop_digits : String → String
drop_digits String.[] = String.[]
drop_digits (String.◌∷◌ c s) =
    let rest = drop_digits s in if is_digit (code c) then rest else String.◌∷◌ c s

-- \d+
unfoldable pub digits : String → Option String
unfolding drop_digits
digits String.[] = none
digits (String.◌∷◌ c s) = if is_digit (code c) then some (drop_digits s) else none

infixl 5 ◌>>=◌
abbrev ◌>>=◌ : Option String → (String → Option String) → Option String
none >>= f = none
some s >>= f = f s

-- A match of RegexNvidiaMigProfile at the start of the text, and what follows it.
unfoldable pub profile_at_start : String → Option String
unfolding digits strip
profile_at_start s = do a ← digits s; b ← strip "g." a; c ← digits b; strip "gb" c

-- A match of RegexNvidiaMigResource at the start.
unfoldable pub resource_at_start : String → Option String
unfolding profile_at_start strip
resource_at_start s = do rest ← strip "nvidia.com/mig-" s; profile_at_start rest

abbrev is_match : Option String → Bool
is_match none = false
is_match (some _) = true

-- MatchString looks for a match anywhere.
unfoldable pub match_string : (String → Option String) → String → Bool
match_string at_start String.[] = is_match (at_start String.[])
match_string at_start (String.◌∷◌ c s) =
    is_match (at_start (String.◌∷◌ c s)) || match_string at_start s
