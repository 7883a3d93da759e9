-- ===== src/Slicing/Profile/Memory.antt =====
-- The memory of the profile that is made for a size is this size.
use Prim.Native.Char.{Char, code}
use walkai_nos.Base.{
  ◌≡◌, refl, ap, false, Option, none, some, String, String_eq, ℤ, pos, negsuc, ℕ, zero, suc, ◌≤◌,
  leb, ◌+◌, ◌==◌, nat_eq, arith, Bool-cases, inl, inr,
}
use walkai_nos.Text.{join, strip, trim_prefix}
use walkai_nos.Text.Decimal.{
  atoi, itoa, atoi-itoa, IsInt64, StartsWithDigit, print_ℕ, print_ℕ-StartsWithDigit, unsigned,
  positive, negative, negate, max_int,
}
use walkai_nos.Geometry.{ProfileName}
use walkai_nos.Slicing.Profile.{trim_suffix, profile_name_prefix, new_profile, get_memory_size_gb}

size_of : String → ℕ
size_of String.[] = 0
size_of (String.◌∷◌ c s) = suc (size_of s)

size_of-join : (s t : String) → size_of (join s t) ≡ size_of s + size_of t
unfolding join size_of
size_of-join String.[] t = omega arith
size_of-join (String.◌∷◌ c s) t = omega (arith, size_of-join s t)

longer : (c : Char) (s : String) → (String.◌∷◌ c (join s "gb") == "gb") ≡ false
unfolding size_of
longer c s = elim (Bool-cases (String.◌∷◌ c (join s "gb") == "gb")) [
  | inl same ↦ absurd (
      omega (
        arith,
        size_of-join s "gb",
        ap size_of ((String_eq.same_iff (String.◌∷◌ c (join s "gb")) "gb").0 same),
      ))
  | inr other ↦ other
]

trim-gb : (s : String) → trim_suffix (join s "gb") "gb" ≡ s
unfolding trim_suffix join
trim-gb String.[] = refl
trim-gb (String.◌∷◌ c s) = rw (longer c s, trim-gb s) refl

no_prefix_of_digit :
    (s t : String) → StartsWithDigit s → trim_prefix (join s t) profile_name_prefix ≡ join s t
unfolding trim_prefix strip join
no_prefix_of_digit String.[] t h = absurd h
no_prefix_of_digit (String.◌∷◌ c s) t h =
    let differs : nat_eq b'n' (code c) ≡ false = ground arith in
    rw (differs, trim_prefix, strip) refl

no_prefix_of_itoa :
    (size : ℤ) → trim_prefix (join (itoa size) "gb") profile_name_prefix ≡ join (itoa size) "gb"
unfolding itoa trim_prefix strip join
no_prefix_of_itoa (pos n) = no_prefix_of_digit (print_ℕ n) "gb" (print_ℕ-StartsWithDigit n)
no_prefix_of_itoa (negsuc n) = refl

pub get_memory_size_gb-new_profile :
    (size : ℤ) → IsInt64 size → get_memory_size_gb (new_profile size) ≡ size
unfolding get_memory_size_gb new_profile
get_memory_size_gb-new_profile size h =
    rw
      (
        get_memory_size_gb,
        new_profile,
        no_prefix_of_itoa size,
        trim-gb (itoa size),
        atoi-itoa size h,
      )
      refl

abbrev AllInt64 : Option ℤ → Type 0
AllInt64 none = Unit
AllInt64 (some z) = IsInt64 z

negate-IsInt64 : (n : ℕ) → n ≤ max_int + 1 → IsInt64 (negate n)
negate-IsInt64 zero h = omega arith
negate-IsInt64 (suc n) h = omega arith

positive-IsInt64 : (o : Option ℕ) → AllInt64 (positive o)
positive-IsInt64 none = tt
positive-IsInt64 (some n) = elim (Bool-cases (leb n max_int)) [
  | inl small ↦ rw small (ground arith)
  | inr large ↦ rw large tt
]

negative-IsInt64 : (o : Option ℕ) → AllInt64 (negative o)
negative-IsInt64 none = tt
negative-IsInt64 (some n) = elim (Bool-cases (leb n (max_int + 1))) [
  | inl small ↦ rw small (negate-IsInt64 n (ground arith))
  | inr large ↦ rw large tt
]

atoi-IsInt64 : (s : String) → AllInt64 (atoi s)
unfolding atoi
atoi-IsInt64 String.[] = tt
atoi-IsInt64 (String.◌∷◌ c s) = elim (Bool-cases (nat_eq (code c) b'-')) [
  | inl dash ↦ rw dash (negative-IsInt64 (unsigned s))
  | inr other ↦ elim (Bool-cases (nat_eq (code c) b'+')) [
    | inl plus ↦ rw (other, plus) (positive-IsInt64 (unsigned s))
    | inr none_of_them ↦ rw (other, none_of_them) (positive-IsInt64 (unsigned (String.◌∷◌ c s)))
  ]
]

or_zero-IsInt64 : (o : Option ℤ) → AllInt64 o → IsInt64 (elim o [ none ↦ pos 0 | some i ↦ i ])
or_zero-IsInt64 none h = omega arith
or_zero-IsInt64 (some i) h = h

pub get_memory_size_gb-IsInt64 : (p : ProfileName) → IsInt64 (get_memory_size_gb p)
unfolding get_memory_size_gb
get_memory_size_gb-IsInt64 p =
    let text = trim_suffix (trim_prefix p profile_name_prefix) "gb" in
    or_zero-IsInt64 (atoi text) (atoi-IsInt64 text)

-- The profile that is made for the memory of a profile has this memory.
pub memory_of_new_profile :
    (p : ProfileName)
    → get_memory_size_gb (new_profile (get_memory_size_gb p)) ≡ get_memory_size_gb p
memory_of_new_profile p =
    get_memory_size_gb-new_profile (get_memory_size_gb p) (get_memory_size_gb-IsInt64 p)
