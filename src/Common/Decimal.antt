-- ===== src/Common/Decimal.antt =====
-- Signed integers, `str(n)`, `f"{n:0wd}"` and `int(text)` of Python over ASCII.
use Prim.Native.Nat.{ℕ, zero, suc, ◌+◌, ◌-◌, ◌*◌, ◌/◌, ◌%◌, ◌≤◌, ◌<◌, ◌^◌}
use mathlib.Core.Path.{◌≡◌, refl, sym, ap, ◌∙◌}
use mathlib.Core.Bool.{Bool, true, false, ◌&&◌, ◌||◌}
use mathlib.Core.Logic.{inl, inr}
use mathlib.Core.Option.{Option, none, some}
use mathlib.Core.List.{[], ◌∷◌, ◌++◌, append_assoc}
use native.Mathlib.Nat.{pow-suc}
use native.Mathlib.Numerals.{add-one}
use native.Mathlib.Omega.{arith}
use compliance_ail.Common.Tests.{ltb, leb, ◌==◌, if◌then◌else◌, Bool-cases}
use compliance_ail.Common.Lists.{length, length-append}
use compliance_ail.Common.Encoding.{Text, is_ascii, is_ascii-append}

-- `negsuc n` is -(n + 1).
pub data ℤ : Type 0 where
  pos : ℕ → ℤ
  negsuc : ℕ → ℤ

-- `z + 1`
unfoldable pub next : ℤ → ℤ
next (pos n) = pos (n + 1)
next (negsuc zero) = pos 0
next (negsuc (suc n)) = negsuc n

-- `z < n` for a limit that is not negative.
abbrev pub below : ℤ → ℕ → Bool
below (pos n) m = ltb n m
below (negsuc n) m = true

unfoldable pub int_eq : ℤ → ℤ → Bool
int_eq (pos a) (pos b) = a == b
int_eq (negsuc a) (negsuc b) = a == b
int_eq (pos a) (negsuc b) = false
int_eq (negsuc a) (pos b) = false

pub int_eq-eq : (a b : ℤ) → int_eq a b ≡ true → a ≡ b
unfolding int_eq
int_eq-eq (pos a) (pos b) h = ground arith
int_eq-eq (negsuc a) (negsuc b) h = ground arith
int_eq-eq (pos a) (negsuc b) h = ground arith
int_eq-eq (negsuc a) (pos b) h = ground arith

pub int_eq_refl : (a : ℤ) → int_eq a a ≡ true
unfolding int_eq
int_eq_refl (pos a) = ground arith
int_eq_refl (negsuc a) = ground arith

unfoldable pub int_le : ℤ → ℤ → Bool
int_le (pos a) (pos b) = leb a b
int_le (negsuc a) (negsuc b) = leb b a
int_le (pos a) (negsuc b) = false
int_le (negsuc a) (pos b) = true

-- The order of the integers.
abbrev pub IsLess : ℤ → ℤ → Type 0
IsLess (pos a) (pos b) = a < b
IsLess (negsuc a) (negsuc b) = b < a
IsLess (pos a) (negsuc b) = ⊥
IsLess (negsuc a) (pos b) = Unit {0}

pub int_le-IsLess : (a b : ℤ) → int_le a b ≡ false → IsLess b a
unfolding int_le
int_le-IsLess (pos a) (pos b) h = ground (arith, h)
int_le-IsLess (negsuc a) (negsuc b) h = ground (arith, h)
int_le-IsLess (pos a) (negsuc b) h = tt
int_le-IsLess (negsuc a) (pos b) h = absurd (cc h)

-- The digits of a number without leading zeros; none for 0. The fuel bounds their count.
digits : ℕ → ℕ → Text
digits zero n = []
digits (suc f) n = let rest = digits f (n / 10) in if n == 0 then [] else rest ++ (48 + n % 10) ∷ []

-- `f"{n:0wd}"`, for a width of at least one.
unfoldable pub padded : ℕ → ℕ → Text
unfolding digits
padded zero n = digits n n
padded (suc w) n = padded w (n / 10) ++ (48 + n % 10) ∷ []

-- `str(z)`
unfoldable pub show : ℤ → Text
unfolding padded
show (pos n) = padded 1 n
show (negsuc n) = b'-' ∷ padded 1 (n + 1)

is_space : ℕ → Bool
is_space c = c == 32 || (leb 9 c && leb c 13) || (leb 28 c && leb c 31)

is_digit : ℕ → Bool
is_digit c = leb b'0' c && leb c b'9'

is_blank : Text → Bool
unfolding is_space
is_blank [] = true
is_blank (c ∷ s) = is_space c && is_blank s

-- The digits of `int(text)`: single underscores between digits, and white space at the end.
read_digits : ℕ → Bool → Text → Option ℕ
unfolding is_blank is_digit
read_digits n after_digit [] = if after_digit then some n else none
read_digits n after_digit (c ∷ s) =
    let digit = read_digits (n * 10 + (c - 48)) true s in
    let underscore = read_digits n false s in
    if is_digit c
    then digit
    else if c == b'_' && after_digit
    then underscore
    else if is_space c && after_digit && is_blank s
    then some n
    else none

negated : Option ℕ → Option ℤ
negated none = none
negated (some zero) = some (pos 0)
negated (some (suc n)) = some (negsuc n)

unsigned : Option ℕ → Option ℤ
unsigned none = none
unsigned (some n) = some (pos n)

-- `int(text)`; `none` is a `ValueError`.
unfoldable pub parse_int : Text → Option ℤ
unfolding read_digits negated unsigned
parse_int [] = none
parse_int (c ∷ s) =
    let skipped = parse_int s in
    if is_space c
    then skipped
    else if c == b'-'
    then negated (read_digits 0 false s)
    else if c == b'+'
    then unsigned (read_digits 0 false s)
    else unsigned (read_digits 0 false (c ∷ s))

read_digits-digits :
    (f n d : ℕ) (rest : Text)
    → n ≤ f
    → d < 10
    → read_digits 0 false (digits f n ++ (48 + d) ∷ rest) ≡ read_digits (n * 10 + d) true rest
unfolding read_digits digits
read_digits-digits zero n d rest h l = ground arith
read_digits-digits (suc f) n d rest h l = elim (Bool-cases (n == 0)) [
  | inl z ↦ rw z (ground arith)
  | inr nz ↦
      rw (nz, append_assoc, read_digits-digits f (n / 10) (n % 10) _ (ground arith) (omega arith))
        (ground arith)
]

read_digits-padded :
    (w n d : ℕ) (rest : Text)
    → d < 10
    → read_digits 0 false (padded w n ++ (48 + d) ∷ rest) ≡ read_digits (n * 10 + d) true rest
unfolding padded read_digits
read_digits-padded zero n d rest l = read_digits-digits n n d rest (omega arith) l
read_digits-padded (suc w) n d rest l =
    rw (append_assoc, read_digits-padded w (n / 10) (n % 10) _ (omega arith)) (ground arith)

pub length-padded : (w n : ℕ) → n < 10 ^ w → length (padded w n) ≡ w
unfolding padded
length-padded zero zero h = refl
length-padded zero (suc n) h = absurd (omega arith)
length-padded (suc w) n h = omega (
  arith,
  length-append {0} (padded w (n / 10)) ((48 + n % 10) ∷ []),
  length-padded w (n / 10) (let e = pow-suc 10 w in omega arith),
)

is_ascii-digits : (f n : ℕ) → is_ascii (digits f n) ≡ true
unfolding digits is_ascii
is_ascii-digits zero n = refl
is_ascii-digits (suc f) n = elim (Bool-cases (n == 0)) [
  | inl z ↦ rw z refl
  | inr nz ↦ rw nz (
      is_ascii-append (digits f (n / 10)) ((48 + n % 10) ∷ []) (is_ascii-digits f (n / 10))
        (ground arith))
]

pub is_ascii-padded : (w n : ℕ) → is_ascii (padded w n) ≡ true
unfolding padded is_ascii
is_ascii-padded zero n = is_ascii-digits n n
is_ascii-padded (suc w) n =
    is_ascii-append (padded w (n / 10)) ((48 + n % 10) ∷ []) (is_ascii-padded w (n / 10))
      (ground arith)

pub padded-zero : padded zero zero ≡ []
unfolding padded digits
padded-zero = refl

pub padded-suc : (w n : ℕ) → padded (suc w) n ≡ padded w (n / 10) ++ (48 + n % 10) ∷ []
unfolding padded
padded-suc w n = refl

-- A printed number begins with a digit.
head-digits :
    (f n d : ℕ) (rest : Text)
    → d < 10
    → (c : ℕ) × (s : Text) × (digits f n ++ (48 + d) ∷ rest ≡ c ∷ s) × (is_digit c ≡ true)
unfolding digits is_digit
head-digits zero n d rest h = (48 + d, rest, refl, ground arith)
head-digits (suc f) n d rest h = elim (Bool-cases (n == 0)) [
  | inl z ↦ rw z (48 + d, rest, refl, ground arith)
  | inr nz ↦ rw (nz, append_assoc) (head-digits f (n / 10) (n % 10) ((48 + d) ∷ rest) (omega arith))
]

parse_int-digit :
    (c : ℕ) (s : Text)
    → is_digit c ≡ true
    → parse_int (c ∷ s) ≡ unsigned (read_digits 0 false (c ∷ s))
unfolding parse_int is_space
parse_int-digit c s h = ground arith

read_digits-decimal : (n : ℕ) → read_digits 0 false (padded 1 n) ≡ some n
unfolding padded read_digits
read_digits-decimal n =
    read_digits-digits (n / 10) (n / 10) (n % 10) [] (omega arith) (omega arith) ∙ ground arith

parse_int-decimal : (n : ℕ) → parse_int (padded 1 n) ≡ some (pos n)
unfolding padded
parse_int-decimal n =
    let (c, s, e, d) = head-digits (n / 10) (n / 10) (n % 10) [] (omega arith) in
    ap parse_int e
    ∙ parse_int-digit c s d
    ∙ ap (λ t. unsigned (read_digits 0 false t)) (sym e)
    ∙ ap unsigned (read_digits-decimal n)
    ∙ unfold unsigned in refl

parse_int-minus : (s : Text) → parse_int (b'-' ∷ s) ≡ negated (read_digits 0 false s)
unfolding parse_int is_space
parse_int-minus s = ground arith

negated-suc : (n : ℕ) → negated (some (n + 1)) ≡ some (negsuc n)
unfolding negated
negated-suc n = rw add-one

-- What `str` prints, `int` reads back.
pub parse_int-show : (z : ℤ) → parse_int (show z) ≡ some z
unfolding show
parse_int-show (pos n) = parse_int-decimal n
parse_int-show (negsuc n) =
    parse_int-minus (padded 1 (n + 1)) ∙ ap negated (read_digits-decimal (n + 1)) ∙ negated-suc n
