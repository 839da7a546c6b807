-- ===== src/Common/Json.antt =====
-- JSON values as `json.loads` returns them, and the dictionary operations on an object.
use compliance_ail.Common.{
  ◌≡◌, refl, Bool, true, false, Option, none, some, String, ◌==ˢ◌, eq_iff, arith, if◌then◌else◌,
  bytes_eq, bytes_eq_iff, bytes_eq_refl, Text, ℤ,
}

-- A number with a fraction or an exponent is kept by its literal.
mutual
  pub data Json : Type 0 where
    null : Json
    bool : Bool → Json
    num : ℤ → Json
    real : Text → Json
    str : Text → Json
    arr : Items → Json
    obj : Fields → Json

  pub data Items : Type 0 where
    nil : Items
    item : Json → Items → Items

  pub data Fields : Type 0 where
    end : Fields
    field : String → Json → Fields → Fields

-- `d.get(k)`
unfoldable pub get : String → Fields → Option Json
get k end = none
get k (field j v d) = if j ==ˢ k then some v else get k d

-- `d[k] = v`
unfoldable pub put : String → Json → Fields → Fields
put k v end = field k v end
put k v (field j w d) = if j ==ˢ k then field k v d else field j w (put k v d)

-- `{j: v for j, v in d.items() if j != k}`
unfoldable pub without : String → Fields → Fields
without k end = end
without k (field j v d) = let rest = without k d in if j ==ˢ k then rest else field j v rest

pub get-put :
    (k j : String) (v : Json) (d : Fields)
    → get j (put k v d) ≡ (if k ==ˢ j then some v else get j d)
unfolding get put
get-put k j v end = refl
get-put k j v (field i w d) = ground (arith, eq_iff k j, eq_iff i k, eq_iff i j, get-put k j v d)

pub get-without :
    (k j : String) (d : Fields) → get j (without k d) ≡ (if k ==ˢ j then none else get j d)
unfolding get without
get-without k j end = ground arith
get-without k j (field i w d) =
    ground (arith, eq_iff k j, eq_iff i k, eq_iff i j, get-without k j d)

-- Two objects with the same entries, in whatever order.
abbrev pub SameFields : Fields → Fields → Type 0
SameFields d e = (k : String) → get k d ≡ get k e

-- `d.get(k) == text`
unfoldable pub is_text : Option Json → Text → Bool
is_text (some (str s)) t = bytes_eq s t
is_text (some null) t = false
is_text (some (bool b)) t = false
is_text (some (num n)) t = false
is_text (some (real r)) t = false
is_text (some (arr xs)) t = false
is_text (some (obj d)) t = false
is_text none t = false

pub is_text-eq : (v : Option Json) (t : Text) → is_text v t ≡ true → v ≡ some (str t)
unfolding is_text
is_text-eq none t h = ground arith
is_text-eq (some (str s)) t h = ground (arith, bytes_eq_iff s t)
is_text-eq (some null) t h = ground arith
is_text-eq (some (bool b)) t h = ground arith
is_text-eq (some (num n)) t h = ground arith
is_text-eq (some (real r)) t h = ground arith
is_text-eq (some (arr xs)) t h = ground arith
is_text-eq (some (obj d)) t h = ground arith

pub is_text-of_eq : (v : Option Json) (t : Text) → v ≡ some (str t) → is_text v t ≡ true
unfolding is_text
is_text-of_eq v t h = rw (h, is_text) (bytes_eq_refl t)
