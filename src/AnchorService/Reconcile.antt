-- ===== src/AnchorService/Reconcile.antt =====
-- `reconcile_once` and `_bound_reserve` of anchor_service/main.py: the positions that the counter
-- handed out against those that the views hold. The lists of a report are sets here, in no order,
-- and are not cut at 100; `validate_reserve` is the same function as the verifier's.
pub mod Live
pub mod Clean
pub mod Overlap
pub mod Rows
pub mod Pages
pub mod Full
pub mod Repeats
use compliance_ail.Common.{
  ℕ, zero, suc, ◌+◌, ◌-◌, Bool, true, false, not, ◌&&◌, ◌||◌, ◌==◌, ltb, Option, none, some, List,
  [], ◌∷◌, ◌++◌, Text, Bytes, codes, bytes_eq, length, filter, has, minus, common, union, ℤ, pos,
  negsuc, int_eq, below, parse_int, if◌then◌else◌, is_some,
}
use compliance_ail.Verifier.Reserve.{Validated, valid, invalid, validate_reserve}
use compliance_ail.AnchorService.Collect.{
  Host, Malformed, Foreign, ViewRead, Answer, Called, raised, out_of_fuel, returned, scores,
  collect_positions,
}

pub data State : Type 0 where
  clean findings : State

-- A view's key with the positions that hold it.
abbrev pub ByKey : Type 0 → Type 0
ByKey F = List (Text × List F)

pub record Report (F : Type 0) : Type 0 where
  pub state : State
  pub allocated : ℕ
  pub indexed : ℕ
  pub backfilled : ℕ
  pub missing : List ℤ
  -- The `unallocated` of the source: the whole positions, and the fractional ones.
  pub unallocated : List ℤ
  pub fractional : List F
  pub foreign : List (Foreign F)
  pub shared : List ℤ
  pub malformed : List (Malformed F)
  pub duplicated : ByKey F

unfoldable pub is_empty {ℓ} : {A : Type ℓ} → List A → Bool
is_empty [] = true
is_empty (x ∷ xs) = false

-- `range(first, first + count)`
unfoldable pub count_from : ℕ → ℕ → List ℤ
count_from zero first = []
count_from (suc count) first = pos first ∷ count_from count (first + 1)

-- `range(RESERVED_POSITIONS + 1, allocated + 1)`
unfoldable pub handed_out : ℕ → ℤ → List ℤ
unfolding count_from
handed_out reserve (pos n) = count_from (n - reserve) (reserve + 1)
handed_out reserve (negsuc n) = []

-- `max(0, allocated - RESERVED_POSITIONS)`
allocations : ℕ → ℤ → ℕ
allocations reserve (pos n) = n - reserve
allocations reserve (negsuc n) = 0

module _ (H : Host) where
  whole_part : Option ℤ → List ℤ → List ℤ
  whole_part none rest = rest
  whole_part (some z) rest = z ∷ rest

  -- `{int(n) for n in positions if n > RESERVED_POSITIONS and float(n).is_integer()}`
  unfoldable pub live_of : ℕ → List H.F → List ℤ
  unfolding whole_part
  live_of reserve [] = []
  live_of reserve (s ∷ rest) =
      let later = live_of reserve rest in
      if H.is_above reserve s then whole_part (H.as_whole s) later else later

  -- `n > RESERVED_POSITIONS and not float(n).is_integer()`
  unfoldable pub is_fractional_above : ℕ → H.F → Bool
  is_fractional_above reserve s = H.is_above reserve s && not (is_some (H.as_whole s))

  -- `by_key.setdefault(key, []).append(score)`
  unfoldable pub add_score : Text → H.F → ByKey H.F → ByKey H.F
  add_score key score [] = (key, score ∷ []) ∷ []
  add_score key score ((k, found) ∷ rest) =
      let later = add_score key score rest in
      if bytes_eq k key then (k, found ++ score ∷ []) ∷ rest else (k, found) ∷ later

  unfoldable pub add_keys : H.F → List Text → ByKey H.F → ByKey H.F
  unfolding add_score
  add_keys score [] acc = acc
  add_keys score (key ∷ rest) acc = add_keys score rest (add_score key score acc)

  unfoldable pub by_key : List (H.F × List Text) → ByKey H.F → ByKey H.F
  unfolding add_keys
  by_key [] acc = acc
  by_key ((score, keys) ∷ rest) acc = by_key rest (add_keys score keys acc)

  -- `len(by_key[key]) > 1`
  unfoldable pub is_repeated : Text × List H.F → Bool
  is_repeated (key, found) = ltb 1 (length found)

  unfoldable pub duplicated_in : ViewRead H.F → ByKey H.F
  unfolding by_key is_repeated filter
  duplicated_in v = filter is_repeated (by_key v.positions [])

  -- The report on what was collected of the decision view and of the intent view.
  unfoldable pub examine : ℕ → ℤ → ViewRead H.F → ViewRead H.F → Report H.F
  unfolding is_empty handed_out allocations scores live_of is_fractional_above duplicated_in
  examine reserve allocated d i =
      let live_d = live_of reserve (scores H d.positions) in
      let live_i = live_of reserve (scores H i.positions) in
      let live = union int_eq live_d live_i in
      let all_positions = union H.eq (scores H d.positions) (scores H i.positions) in
      let fractional = filter (is_fractional_above reserve) all_positions in
      let missing = minus int_eq (handed_out reserve allocated) live in
      let unallocated = minus int_eq live (handed_out reserve allocated) in
      let foreign = d.foreign ++ i.foreign in
      let shared = common int_eq live_d live_i in
      let malformed = d.malformed ++ i.malformed in
      let duplicated = duplicated_in d ++ duplicated_in i in
      record {
        state =
            if is_empty missing
              && is_empty unallocated
              && is_empty fractional
              && is_empty foreign
              && is_empty shared
              && is_empty malformed
              && is_empty duplicated
            then clean
            else findings;
        allocated = allocations reserve allocated;
        indexed = length live;
        backfilled = length all_positions - length live - length fractional;
        missing = missing;
        unallocated = unallocated;
        fractional = fractional;
        foreign = foreign;
        shared = shared;
        malformed = malformed;
        duplicated = duplicated;
      }

  -- What `reconcile_once` returns.
  pub data Pass : Type 0 where
    reserve_mismatch : ℕ → Pass
    no_sequence : Pass
    examined : Report H.F → Pass

  -- One key of /db/getall: an exception, a status other than 200 or no entry, or the text of its value.
  pub data Fetched : Type 0 where
    broken absent : Fetched
    value : Text → Fetched

  valid_reserve : Validated → Called (Option ℕ)
  valid_reserve (invalid e) = raised
  valid_reserve (valid n) = returned (some n)

  -- `_bound_reserve`
  unfoldable pub bound_reserve : Fetched → Called (Option ℕ)
  unfolding valid_reserve
  bound_reserve broken = raised
  bound_reserve absent = returned none
  bound_reserve (value text) = valid_reserve (validate_reserve text)

  module _ {Net : Type 0} (zscan : Net → Text → Option H.F → Answer × Net)
      (get_all : Net → Bytes → Fetched × Net) (login : Net → Bool × Net) (limit : ℕ) where
    after_collect : ℕ → ℤ → Called (ViewRead H.F × ViewRead H.F) × Net → Called Pass × Net
    unfolding examine
    after_collect reserve allocated (raised, net) = (raised, net)
    after_collect reserve allocated (out_of_fuel, net) = (out_of_fuel, net)
    after_collect reserve allocated (returned (d, i), net) =
        (returned (examined (examine reserve allocated d i)), net)

    with_allocated : ℕ → ℕ → Option ℤ → Net → Called Pass × Net
    unfolding after_collect
    with_allocated fuel reserve none net = (raised, net)
    with_allocated fuel reserve (some allocated) net =
        after_collect reserve allocated (collect_positions H zscan limit fuel net)

    after_counter : ℕ → ℕ → Fetched × Net → Called Pass × Net
    unfolding with_allocated
    after_counter fuel reserve (broken, net) = (raised, net)
    after_counter fuel reserve (absent, net) = (returned no_sequence, net)
    after_counter fuel reserve (value text, net) = with_allocated fuel reserve (parse_int text) net

    after_bound : ℕ → ℕ → Called (Option ℕ) → Net → Called Pass × Net
    unfolding after_counter
    after_bound fuel reserve raised net = (raised, net)
    after_bound fuel reserve out_of_fuel net = (out_of_fuel, net)
    after_bound fuel reserve (returned none) net =
        after_counter fuel reserve (get_all net (codes "ail_seq:commit"))
    after_bound fuel reserve (returned (some bound)) net =
        if not (bound == reserve)
        then (returned (reserve_mismatch bound), net)
        else after_counter fuel reserve (get_all net (codes "ail_seq:commit"))

    after_login : ℕ → ℕ → Bool × Net → Called Pass × Net
    unfolding after_bound bound_reserve
    after_login fuel reserve (false, net) = (raised, net)
    after_login fuel reserve (true, net) =
        let fetched = get_all net (codes "ail_seq:reserve") in
        after_bound fuel reserve (bound_reserve fetched.0) fetched.1

    -- `reconcile_once`, with the configured reserve.
    unfoldable pub reconcile_once : ℕ → ℕ → Net → Called Pass × Net
    unfolding after_login
    reconcile_once fuel reserve net = after_login fuel reserve (login net)
