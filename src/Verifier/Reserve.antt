-- ===== src/Verifier/Reserve.antt =====
-- `validate_reserve` of verifier/main.py: the boundary between indexed history and live positions.
use compliance_ail.Common.{
  ◌≡◌, ℕ, ◌≤◌, ◌<◌, Option, none, some, arith, ltb, leb, if◌then◌else◌, Text, ℤ, pos, negsuc,
  parse_int, parse_int-show, show,
}

-- Above this, consecutive integers are not distinct scores.
abbrev pub max_position : ℕ
max_position = 0x20_0000_0000_0000

pub data ReserveError : Type 0 where
  not_an_integer : Text → ReserveError
  not_positive : ℤ → ReserveError
  not_below_limit : ℕ → ReserveError

pub data Validated : Type 0 where
  valid : ℕ → Validated
  invalid : ReserveError → Validated

-- The two range checks, on the integer that was read.
check_range : Option ℤ → Text → Validated
check_range none raw = invalid (not_an_integer raw)
check_range (some (negsuc n)) raw = invalid (not_positive (negsuc n))
check_range (some (pos n)) raw =
    if ltb n 1
    then invalid (not_positive (pos n))
    else if leb max_position n
    then invalid (not_below_limit n)
    else valid n

unfoldable pub validate_reserve : Text → Validated
unfolding check_range
validate_reserve raw = check_range (parse_int raw) raw

-- An accepted reserve reads as an integer from 1 up to, and not including, the limit.
pub validate_reserve-valid :
    (raw : Text) (n : ℕ)
    → validate_reserve raw ≡ valid n
    → (parse_int raw ≡ some (pos n)) × (1 ≤ n) × (n < max_position)
unfolding validate_reserve
validate_reserve-valid raw n h = ground arith

-- Every reserve in range is read back from its decimal digits.
pub validate_reserve-show :
    (n : ℕ) → 1 ≤ n → n < max_position → validate_reserve (show (pos n)) ≡ valid n
unfolding validate_reserve
validate_reserve-show n l h = rw (parse_int-show (pos n), check_range) (ground arith)
