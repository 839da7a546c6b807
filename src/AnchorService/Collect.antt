-- ===== src/AnchorService/Collect.antt =====
-- `collect_positions` of anchor_service/main.py: every position of a view, page by page. The loop of
-- the source has no bound of its own; here it has fuel. Floats are the parameter `Host`.
pub mod Steps
pub mod Rounds
pub mod Ends
use compliance_ail.Common.{
  ℕ, zero, suc, ◌+◌, Bool, true, false, not, ◌||◌, ◌==◌, ltb, Option, none, some, List, [], ◌∷◌,
  ◌++◌, Text, Bytes, codes, starts_with, length, take, ℤ, if◌then◌else◌,
}
use compliance_ail.Common.Json.{Json, null, bool, num, real, str, arr, obj, Fields, get}

pub record Host : Type 1 where
  pub F : Type 0
  -- `a == b` and `a < b`
  pub eq : F → F → Bool
  pub lt : F → F → Bool
  -- `n > RESERVED_POSITIONS`
  pub is_above : ℕ → F → Bool
  -- `int(n)` where `float(n).is_integer()`
  pub as_whole : F → Option ℤ
  pub zero_score : F
  -- `float(...)`, which may raise
  pub parse : Json → Option F
  pub b64decode : Text → Option Bytes
  pub decode_replace : Bytes → Text

-- `_ZSCAN_PAGE`
abbrev pub zscan_page : ℕ
zscan_page = 2500

abbrev pub decision_view : Text
decision_view = codes "ail_view:decision:v1"

abbrev pub intent_view : Text
intent_view = codes "ail_view:intent:v1"

abbrev pub decision_prefix : Text
decision_prefix = codes "tool_call:"

abbrev pub intent_prefix : Text
intent_prefix = codes "tool_call_intent:"

pub data Malformed (F : Type 0) : Type 0 where
  zscan_failed : ℕ → Text → Malformed F
  unparseable_score : Malformed F
  score_outside_requested_bound : F → F → Json → Malformed F
  score_absent_or_zero : Json → Malformed F
  unreadable_key : F → Malformed F
  unparseable_page_cursor : Malformed F

pub record Foreign (F : Type 0) : Type 0 where
  pub position : F
  pub key : Text
  pub expected_prefix : Text

-- What is collected of one view.
pub record ViewRead (F : Type 0) : Type 0 where
  pub positions : List (F × List Text)
  pub foreign : List (Foreign F)
  pub malformed : List (Malformed F)

-- The answer to a scan: an exception, a status other than 200, or rows.
pub data Answer : Type 0 where
  lost : Answer
  refused : ℕ → Text → Answer
  entries : List Fields → Answer

-- A call may raise, or have no fuel left.
pub data Called {ℓ} (A : Type ℓ) : Type ℓ where
  raised out_of_fuel : Called A
  returned : A → Called A

pub data Cursor (F : Type 0) : Type 0 where
  no_rows unparseable : Cursor F
  from : F → Cursor F

module _ (H : Host) where
  -- `float(row.get("score", 0.0))`
  unfoldable pub score_of : Option Json → Option H.F
  score_of none = some H.zero_score
  score_of (some j) = H.parse j

  key_or_empty : Option Json → Json
  key_or_empty none = str []
  key_or_empty (some j) = j

  -- `row.get("entry", {}).get("key", "")`, which raises where the entry is not a dictionary.
  unfoldable pub reported_key : Option Json → Option Json
  unfolding key_or_empty
  reported_key none = some (str [])
  reported_key (some (obj d)) = some (key_or_empty (get "key" d))
  reported_key (some null) = none
  reported_key (some (bool b)) = none
  reported_key (some (num n)) = none
  reported_key (some (real r)) = none
  reported_key (some (str s)) = none
  reported_key (some (arr xs)) = none

  decoded_text : Option Bytes → Option Text
  decoded_text none = none
  decoded_text (some b) = some (H.decode_replace b)

  key_text : Option Json → Option Text
  unfolding decoded_text
  key_text none = none
  key_text (some (str s)) = decoded_text (H.b64decode s)
  key_text (some null) = none
  key_text (some (bool b)) = none
  key_text (some (num n)) = none
  key_text (some (real r)) = none
  key_text (some (arr xs)) = none
  key_text (some (obj d)) = none

  -- `base64.b64decode(row["entry"]["key"]).decode("utf-8", "replace")`, `none` where it raises.
  unfoldable pub row_key : Option Json → Option Text
  unfolding key_text
  row_key none = none
  row_key (some (obj d)) = key_text (get "key" d)
  row_key (some null) = none
  row_key (some (bool b)) = none
  row_key (some (num n)) = none
  row_key (some (real r)) = none
  row_key (some (str s)) = none
  row_key (some (arr xs)) = none

  -- `positions.setdefault(score, []).append(key)`
  unfoldable pub add_key : H.F → Text → List (H.F × List Text) → List (H.F × List Text)
  add_key score key [] = (score, key ∷ []) ∷ []
  add_key score key ((s, keys) ∷ rest) =
      let later = add_key score key rest in
      if H.eq s score then (s, keys ++ key ∷ []) ∷ rest else (s, keys) ∷ later

  unfoldable pub scores : List (H.F × List Text) → List H.F
  scores [] = []
  scores ((s, keys) ∷ rest) = s ∷ scores rest

  unfoldable pub report : Malformed H.F → ViewRead H.F → ViewRead H.F
  report m acc = record acc { malformed = acc.malformed ++ m ∷ [] }

  reported : (Json → Malformed H.F) → Option Json → ViewRead H.F → Option (ViewRead H.F)
  unfolding report
  reported m none acc = none
  reported m (some key) acc = some (report (m key) acc)

  -- The row's score against the bound that was asked for.
  unfoldable pub bounded : Option H.F → H.F → Fields → ViewRead H.F → Option (ViewRead H.F)
  unfolding reported
  bounded none score row acc = some acc
  bounded (some min) score row acc =
      if H.lt score min
      then reported (score_outside_requested_bound score min) (reported_key (get "entry" row)) acc
      else some acc

  -- `if "score" not in row`
  unfoldable pub present : Option Json → Fields → ViewRead H.F → Option (ViewRead H.F)
  unfolding reported
  present none row acc = reported score_absent_or_zero (reported_key (get "entry" row)) acc
  present (some j) row acc = some acc

  -- The position of a key that could be read, and whether it belongs into the view.
  unfoldable pub placed : Text → H.F → Option Text → ViewRead H.F → ViewRead H.F
  unfolding add_key report
  placed prefix score none acc = report (unreadable_key score) acc
  placed prefix score (some key) acc = record {
    positions = add_key score key acc.positions;
    foreign =
        if starts_with key prefix
        then acc.foreign
        else acc.foreign ++ record { position = score; key = key; expected_prefix = prefix } ∷ [];
    malformed = acc.malformed;
  }

  unfoldable pub read_scored :
      Text → Option H.F → Fields → Option H.F → ViewRead H.F → Option (ViewRead H.F)
  unfolding report bounded present placed
  read_scored prefix min row none acc = some (report unparseable_score acc)
  read_scored prefix min row (some score) acc = elim (bounded min score row acc) [
    | none ↦ none
    | some within ↦ elim (present (get "score" row) row within) [
      | none ↦ none
      | some whole ↦ some (placed prefix score (row_key (get "entry" row)) whole)
    ]
  ]

  -- The loop over the rows of a page; `none` where it raises.
  unfoldable pub read_rows : Text → Option H.F → List Fields → ViewRead H.F → Option (ViewRead H.F)
  unfolding read_scored
  read_rows prefix min [] acc = some acc
  read_rows prefix min (row ∷ rest) acc =
      elim (read_scored prefix min row (score_of (get "score" row)) acc) [
        | none ↦ none
        | some next ↦ read_rows prefix min rest next
      ]

  cursor_at : Option H.F → Cursor H.F
  cursor_at none = unparseable
  cursor_at (some score) = from score

  -- `float(rows[-1].get("score", 0.0))`
  unfoldable pub cursor : List Fields → Cursor H.F
  unfolding cursor_at
  cursor [] = no_rows
  cursor (row ∷ []) = cursor_at (score_of (get "score" row))
  cursor (row ∷ next ∷ rest) = cursor (next ∷ rest)

  -- A short page, or one without a new position.
  unfoldable pub is_last : ℕ → List Fields → ViewRead H.F → ViewRead H.F → Bool
  is_last limit rows before after =
      ltb (length rows) limit || (length after.positions == length before.positions)

  -- POST /db/zscan for a view, from a least score.
  module _ {Net : Type 0} (zscan : Net → Text → Option H.F → Answer × Net) (limit : ℕ) where
    -- The loop over the pages of one view.
    unfoldable pub collect_view :
        ℕ → Text → Text → Option H.F → ViewRead H.F → Net → Called (ViewRead H.F) × Net
    unfolding report
    collect_view zero view prefix min acc net = (out_of_fuel, net)
    collect_view (suc fuel) view prefix min acc net =
        let later = (zscan net view min).1 in
        elim (zscan net view min).0 [
          | lost ↦ (raised, later)
          | refused status text ↦
              (returned (report (zscan_failed status (take 200 text)) acc), later)
          | entries rows ↦ elim (read_rows prefix min rows acc) [
            | none ↦ (raised, later)
            | some after ↦ elim (cursor rows) [
              | no_rows ↦ (returned after, later)
              | unparseable ↦ (returned (report unparseable_page_cursor after), later)
              | from score ↦ elim (is_last limit rows acc after) [
                | true ↦ (returned after, later)
                | false ↦ collect_view fuel view prefix (some score) after later
              ]
            ]
          ]
        ]

    unfoldable pub empty_read : ViewRead H.F
    empty_read = record { positions = []; foreign = []; malformed = [] }

    after_decisions : ℕ → Called (ViewRead H.F) × Net → Called (ViewRead H.F × ViewRead H.F) × Net
    unfolding collect_view
    after_decisions fuel (raised, net) = (raised, net)
    after_decisions fuel (out_of_fuel, net) = (out_of_fuel, net)
    after_decisions fuel (returned d, net) =
        let intents = collect_view fuel intent_view intent_prefix none empty_read net in
        elim intents.0 [
          | raised ↦ (raised, intents.1)
          | out_of_fuel ↦ (out_of_fuel, intents.1)
          | returned i ↦ (returned (d, i), intents.1)
        ]

    -- `collect_positions`: the decision view, then the intent view.
    unfoldable pub collect_positions : ℕ → Net → Called (ViewRead H.F × ViewRead H.F) × Net
    unfolding after_decisions empty_read
    collect_positions fuel net =
        after_decisions fuel (collect_view fuel decision_view decision_prefix none empty_read net)
