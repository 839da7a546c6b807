-- ===== src/Common/Encoding.antt =====
-- Python's `str` as a list of code points (a lone surrogate is one), and what the code does with it.
use Prim.Native.Nat.{ℕ, zero, suc, ◌+◌, ◌/◌, ◌%◌}
use Prim.Native.Char.{code}
use Prim.Native.String.{String}
use mathlib.Core.Path.{◌≡◌, refl, sym}
use mathlib.Core.Logic.{inl, inr}
use mathlib.Core.Bool.{Bool, true, false, ◌&&◌}
use mathlib.Core.Option.{Option, none, some}
use mathlib.Core.List.{List, [], ◌∷◌, ◌++◌, append_assoc}
use native.Mathlib.Omega.{arith}
use compliance_ail.Common.Lists.{take}
use compliance_ail.Common.Tests.{ltb, leb, if◌then◌else◌, Bool-cases, Option-cases}

abbrev pub Text : Type 0
Text = List ℕ

abbrev pub Bytes : Type 0
Bytes = List ℕ

unfoldable pub codes : String → Text
codes String.[] = []
codes (String.◌∷◌ c s) = code c ∷ codes s

unfoldable pub is_surrogate : ℕ → Bool
is_surrogate c = leb 0xD800 c && ltb c 0xE000

-- One code point in UTF-8; a surrogate becomes `?`, as with errors="replace".
unfoldable pub utf8_char : ℕ → Bytes
unfolding is_surrogate
utf8_char c =
    if ltb c 0x80
    then c ∷ []
    else if ltb c 0x800
    then (0xC0 + c / 64) ∷ (0x80 + c % 64) ∷ []
    else if is_surrogate c
    then b'?' ∷ []
    else if ltb c 0x10000
    then (0xE0 + c / 4096) ∷ (0x80 + c / 64 % 64) ∷ (0x80 + c % 64) ∷ []
    else (0xF0 + c / 262144) ∷ (0x80 + c / 4096 % 64) ∷ (0x80 + c / 64 % 64) ∷ (0x80 + c % 64) ∷ []

-- `s.encode("utf-8", "replace")`
unfoldable pub encode_replace : Text → Bytes
unfolding utf8_char
encode_replace [] = []
encode_replace (c ∷ s) = utf8_char c ++ encode_replace s

-- `s.encode("utf-8")`, which raises on a surrogate.
unfoldable pub encode : Text → Option Bytes
unfolding encode_replace
encode [] = some []
encode (c ∷ s) =
    let rest = encode s in
    if is_surrogate c then none else elim rest [ none ↦ none | some r ↦ some (utf8_char c ++ r) ]

-- Where the strict encoding exists it is the lenient one.
pub encode-encode_replace : (s : Text) {b : Bytes} → encode s ≡ some b → b ≡ encode_replace s
unfolding encode
encode-encode_replace [] h = ground arith
encode-encode_replace (c ∷ s) h = elim (Bool-cases (is_surrogate c)) [
  | inl bad ↦ absurd (ground (arith, bad))
  | inr good ↦ elim (Option-cases (encode s)) [
    | inl e ↦ absurd (ground (arith, e, good))
    | inr (r, e) ↦ ground (arith, e, good, encode-encode_replace s e)
  ]
]

-- Every code is ASCII.
unfoldable pub is_ascii : Text → Bool
is_ascii [] = true
is_ascii (c ∷ s) = if ltb c 0x80 then is_ascii s else false

-- An ASCII prefix of a text is a prefix of its encoding, as it is.
pub encode-prefix :
    (p t : Text) (b : Bytes)
    → is_ascii p ≡ true
    → encode (p ++ t) ≡ some b
    → (rest : Bytes) × (b ≡ p ++ rest)
unfolding encode is_ascii utf8_char is_surrogate
encode-prefix [] t b a h = (b, refl)
encode-prefix (c ∷ p) t b a h = elim (Bool-cases (ltb c 0x80)) [
  | inr big ↦ absurd (ground (arith, big, a))
  | inl small ↦ elim (Option-cases (encode (p ++ t))) [
    | inl e ↦ absurd (ground (arith, e, h))
    | inr (r, e) ↦
        let (rest, same) = encode-prefix p t r (ground (arith, small, a)) e in
        let one : utf8_char c ≡ c ∷ [] = ground (arith, small) in
        let plain : is_surrogate c ≡ false = ground (arith, small) in
        (rest, ground (arith, e, h, plain, one, same))
  ]
]

pub is_ascii-append :
    (xs ys : Text) → is_ascii xs ≡ true → is_ascii ys ≡ true → is_ascii (xs ++ ys) ≡ true
unfolding is_ascii
is_ascii-append [] ys h i = i
is_ascii-append (x ∷ xs) ys h i =
    let tail : is_ascii xs ≡ true = ground (arith, h) in
    ground (arith, h, is_ascii-append xs ys tail i)

pub is_ascii-take : (n : ℕ) (xs : Text) → is_ascii xs ≡ true → is_ascii (take n xs) ≡ true
unfolding is_ascii
is_ascii-take zero xs h = refl
is_ascii-take (suc n) [] h = refl
is_ascii-take (suc n) (x ∷ xs) h =
    let tail : is_ascii xs ≡ true = ground (arith, h) in ground (arith, h, is_ascii-take n xs tail)

-- ASCII text is its own encoding.
pub encode-ascii : (xs : Text) → is_ascii xs ≡ true → encode xs ≡ some xs
unfolding encode is_ascii utf8_char is_surrogate
encode-ascii [] h = refl
encode-ascii (x ∷ xs) h =
    let tail : is_ascii xs ≡ true = ground (arith, h) in
    let small : ltb x 0x80 ≡ true = ground (arith, h) in
    let one : utf8_char x ≡ x ∷ [] = ground (arith, small) in
    let plain : is_surrogate x ≡ false = ground (arith, small) in
    rw (plain, encode-ascii xs tail, one) refl

pub encode-append :
    (xs ys : Text) (a b : Bytes)
    → encode xs ≡ some a
    → encode ys ≡ some b
    → encode (xs ++ ys) ≡ some (a ++ b)
unfolding encode
encode-append [] ys a b h i = let none_left : [] ≡ a = cc h in rw (sym none_left) i
encode-append (x ∷ xs) ys a b h i = elim (Bool-cases (is_surrogate x)) [
  | inl bad ↦ absurd (ground (arith, bad, h))
  | inr good ↦ elim (Option-cases (encode xs)) [
    | inl e ↦ absurd (ground (arith, e, good, h))
    | inr (r, e) ↦
        let front : utf8_char x ++ r ≡ a = ground (arith, e, good, h) in
        rw (good, encode-append xs ys r b e i, sym front, append_assoc) refl
  ]
]
