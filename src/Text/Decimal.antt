-- ===== src/Text/Decimal.antt =====
-- strconv.Atoi and `%d`: decimal numbers, signed, within 64 bits.
use Prim.Native.Char.{Char, code}
use walkai_nos.Base.{
  ◌≡◌, refl, ◌∙◌, ap, ℕ, zero, suc, ◌+◌, ◌-◌, ◌*◌, Bool-cases, inl, inr, ◌/◌, ◌%◌, ◌≤◌, ◌<◌, true,
  false, ◌&&◌, Option, none, some, String, ℤ, pos, negsuc, leb, nat_eq, if◌then◌else◌, arith,
}

-- The value of a run of digits behind a number that is read already.
unfoldable pub parse_digits : ℕ → String → Option ℕ
parse_digits n String.[] = some n
parse_digits n (String.◌∷◌ c s) =
    let rest = parse_digits (n * 10 + (code c - 48)) s in
    if leb 48 (code c) && leb (code c) 57 then rest else none

-- Without a digit there is an error.
unfoldable pub unsigned : String → Option ℕ
unfolding parse_digits
unsigned String.[] = none
unsigned (String.◌∷◌ c s) = parse_digits 0 (String.◌∷◌ c s)

abbrev pub max_int : ℕ
max_int = 9223372036854775807

abbrev pub positive : Option ℕ → Option ℤ
positive none = none
positive (some n) = if leb n max_int then some (pos n) else none

abbrev pub negate : ℕ → ℤ
negate zero = pos 0
negate (suc n) = negsuc n

abbrev pub negative : Option ℕ → Option ℤ
negative none = none
negative (some n) = if leb n (max_int + 1) then some (negate n) else none

-- strconv.Atoi; `none` is the error.
unfoldable pub atoi : String → Option ℤ
unfolding unsigned
atoi String.[] = none
atoi (String.◌∷◌ c s) =
    if nat_eq (code c) b'-'
    then negative (unsigned s)
    else if nat_eq (code c) b'+'
    then positive (unsigned s)
    else positive (unsigned (String.◌∷◌ c s))

abbrev digit : ℕ → Char
digit zero = "0"
digit (suc zero) = "1"
digit (suc (suc zero)) = "2"
digit (suc (suc (suc zero))) = "3"
digit (suc (suc (suc (suc zero)))) = "4"
digit (suc (suc (suc (suc (suc zero))))) = "5"
digit (suc (suc (suc (suc (suc (suc zero)))))) = "6"
digit (suc (suc (suc (suc (suc (suc (suc zero))))))) = "7"
digit (suc (suc (suc (suc (suc (suc (suc (suc zero)))))))) = "8"
digit (suc (suc (suc (suc (suc (suc (suc (suc (suc n))))))))) = "9"

code-digit : (d : ℕ) → d < 10 → code (digit d) ≡ 48 + d
code-digit zero h = refl
code-digit (suc zero) h = refl
code-digit (suc (suc zero)) h = refl
code-digit (suc (suc (suc zero))) h = refl
code-digit (suc (suc (suc (suc zero)))) h = refl
code-digit (suc (suc (suc (suc (suc zero))))) h = refl
code-digit (suc (suc (suc (suc (suc (suc zero)))))) h = refl
code-digit (suc (suc (suc (suc (suc (suc (suc zero))))))) h = refl
code-digit (suc (suc (suc (suc (suc (suc (suc (suc zero)))))))) h = refl
code-digit (suc (suc (suc (suc (suc (suc (suc (suc (suc zero))))))))) h = refl
code-digit (suc (suc (suc (suc (suc (suc (suc (suc (suc (suc n)))))))))) h = absurd (omega arith)

-- The digits of a number in front of a text; the fuel is above the number.
unfoldable pub digits_before : ℕ → ℕ → String → String
digits_before zero n s = s
digits_before (suc fuel) n s =
    let last = String.◌∷◌ (digit (n % 10)) s in
    let more = digits_before fuel (n / 10) last in if nat_eq (n / 10) 0 then last else more

unfoldable pub print_ℕ : ℕ → String
unfolding digits_before
print_ℕ n = digits_before (suc n) n String.[]

-- `%d`
unfoldable pub itoa : ℤ → String
itoa (pos n) = print_ℕ n
itoa (negsuc n) = String.◌∷◌ "-" (print_ℕ (suc n))

parse_one :
    (m d : ℕ) (s : String)
    → d < 10
    → parse_digits m (String.◌∷◌ (digit d) s) ≡ parse_digits (m * 10 + d) s
unfolding parse_digits
parse_one m d s h =
    let value : m * 10 + (code (digit d) - 48) ≡ m * 10 + d = omega (arith, code-digit d h) in
    let is_digit : leb 48 (code (digit d)) && leb (code (digit d)) 57 ≡ true =
      ground (arith, code-digit d h) in
    ap (λ b. if b then parse_digits (m * 10 + (code (digit d) - 48)) s else none) is_digit
    ∙ ap (λ k. parse_digits k s) value

parse-digits_before :
    (fuel n : ℕ) (s : String)
    → n < fuel
    → parse_digits 0 (digits_before fuel n s) ≡ parse_digits n s
unfolding digits_before
parse-digits_before zero n s h = absurd (omega arith)
parse-digits_before (suc fuel) n s h = elim (Bool-cases (nat_eq (n / 10) 0)) [
  | inl small ↦
      let whole : 0 * 10 + n % 10 ≡ n = ground arith in
      rw small (parse_one 0 (n % 10) s (omega arith) ∙ ap (λ k. parse_digits k s) whole)
  | inr large ↦
      let whole : n / 10 * 10 + n % 10 ≡ n = omega arith in
      rw large (
        parse-digits_before fuel (n / 10) (String.◌∷◌ (digit (n % 10)) s) (ground arith)
        ∙ parse_one (n / 10) (n % 10) s (omega arith)
        ∙ ap (λ k. parse_digits k s) whole)
]

-- Its first character is a digit.
abbrev pub StartsWithDigit : String → Type 0
StartsWithDigit String.[] = ⊥
StartsWithDigit (String.◌∷◌ c s) = (48 ≤ code c) × (code c ≤ 57)

digits_before-StartsWithDigit :
    (fuel n : ℕ) (s : String) → n < fuel → StartsWithDigit (digits_before fuel n s)
unfolding digits_before
digits_before-StartsWithDigit zero n s h = absurd (omega arith)
digits_before-StartsWithDigit (suc fuel) n s h = elim (Bool-cases (nat_eq (n / 10) 0)) [
  | inl small ↦ rw small (omega (arith, code-digit (n % 10)), omega (arith, code-digit (n % 10)))
  | inr large ↦
      rw large
        (digits_before-StartsWithDigit fuel (n / 10) (String.◌∷◌ (digit (n % 10)) s) (ground arith))
]

pub print_ℕ-StartsWithDigit : (n : ℕ) → StartsWithDigit (print_ℕ n)
unfolding print_ℕ
print_ℕ-StartsWithDigit n = digits_before-StartsWithDigit (suc n) n String.[] (omega arith)

unsigned_of_digit : (s : String) → StartsWithDigit s → unsigned s ≡ parse_digits 0 s
unfolding unsigned
unsigned_of_digit String.[] h = absurd h
unsigned_of_digit (String.◌∷◌ c s) h = refl

parse_nothing : (n : ℕ) → parse_digits n String.[] ≡ some n
unfolding parse_digits
parse_nothing n = refl

parse-print_ℕ : (n : ℕ) → parse_digits 0 (print_ℕ n) ≡ some n
unfolding print_ℕ
parse-print_ℕ n = parse-digits_before (suc n) n String.[] (omega arith) ∙ parse_nothing n

unsigned-print_ℕ : (n : ℕ) → unsigned (print_ℕ n) ≡ some n
unsigned-print_ℕ n = unsigned_of_digit (print_ℕ n) (print_ℕ-StartsWithDigit n) ∙ parse-print_ℕ n

atoi_of_digit : (s : String) → StartsWithDigit s → atoi s ≡ positive (unsigned s)
unfolding atoi
atoi_of_digit String.[] h = absurd h
atoi_of_digit (String.◌∷◌ c s) h = ground arith

-- Reading what `%d` prints gives the number back, within 64 bits.
abbrev pub IsInt64 : ℤ → Type 0
IsInt64 (pos n) = n ≤ max_int
IsInt64 (negsuc n) = n ≤ max_int

pub atoi-itoa : (z : ℤ) → IsInt64 z → atoi (itoa z) ≡ some z
unfolding itoa atoi
atoi-itoa (pos n) h =
    atoi_of_digit (print_ℕ n) (print_ℕ-StartsWithDigit n)
    ∙ ap positive (unsigned-print_ℕ n)
    ∙ ground arith
atoi-itoa (negsuc n) h = ap negative (unsigned-print_ℕ (suc n)) ∙ ground arith

abbrev pub NoDash : String → Type 0
NoDash String.[] = Unit
NoDash (String.◌∷◌ c s) = (nat_eq (code c) b'-' ≡ false) × NoDash s

digits_before-NoDash : (fuel n : ℕ) (s : String) → NoDash s → NoDash (digits_before fuel n s)
unfolding digits_before
digits_before-NoDash zero n s h = h
digits_before-NoDash (suc fuel) n s h = elim (Bool-cases (nat_eq (n / 10) 0)) [
  | inl small ↦ rw small (ground (arith, code-digit (n % 10)), h)
  | inr large ↦ rw large (
      digits_before-NoDash fuel (n / 10) (String.◌∷◌ (digit (n % 10)) s)
        (ground (arith, code-digit (n % 10)), h))
]

-- A number that is not negative is printed without a dash.
pub print_ℕ-NoDash : (n : ℕ) → NoDash (print_ℕ n)
unfolding print_ℕ
print_ℕ-NoDash n = digits_before-NoDash (suc n) n String.[] tt
