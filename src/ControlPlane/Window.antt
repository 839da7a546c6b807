-- ===== src/ControlPlane/Window.antt =====
-- `_faults_in_tx_window` of control_plane/main.py: the bounded scan of fault keys, page by page. The
-- loop of the source has no bound of its own; here it has fuel.
pub mod Order
pub mod Suffix
pub mod Complete
use compliance_ail.Common.{
  ℕ, zero, suc, ◌+◌, Bool, true, false, not, ◌&&◌, ◌==◌, ltb, Option, none, some, List, [], ◌∷◌,
  ◌++◌, Text, Bytes, codes, encode_replace, padded, length, if◌then◌else◌,
}
use compliance_ail.Common.Json.{Fields, get}
use compliance_ail.Provenance.{Crypto}
use compliance_ail.ControlPlane.Faults.{Reader, fault_prefix, tx_pad, decoded, key_of}

-- `_MAX_SCAN_LIMIT`
abbrev pub max_scan_limit : ℕ
max_scan_limit = 2500

-- `a < b` of byte strings.
unfoldable pub bytes_lt : Bytes → Bytes → Bool
bytes_lt [] [] = false
bytes_lt [] (y ∷ ys) = true
bytes_lt (x ∷ xs) [] = false
bytes_lt (x ∷ xs) (y ∷ ys) =
    let rest = bytes_lt xs ys in if ltb x y then true else if x == y then rest else false

-- `_fault_key_tx_bound(tx_id).encode()`
unfoldable pub tx_bound : ℕ → Bytes
tx_bound tx = fault_prefix ++ padded tx_pad tx

-- `key >= seek if inclusive_seek else key > seek`
unfoldable pub from_seek : Bytes → Bool → Bytes → Bool
from_seek seek inclusive key = if inclusive then not (bytes_lt key seek) else bytes_lt seek key

unfoldable pub in_window : Bytes → Bool → Bytes → Bytes → Bool
unfolding from_seek
in_window seek inclusive end key = from_seek seek inclusive key && bytes_lt key end

pub data Checked : Type 0 where
  fine undecodable : Checked
  outside : Bytes → Checked

pub data WindowRead : Type 0 where
  rows : List Fields → WindowRead
  bounded_read_fault : Bytes → WindowRead
  raised out_of_fuel : WindowRead

module _ {C : Crypto} (R : Reader C) where
  unfoldable pub row_key : Fields → Option Bytes
  row_key row = decoded R (key_of R (get "key" row))

  -- The loop over a page: the first key that is outside what was asked for.
  unfoldable pub check_rows : Bytes → Bool → Bytes → List Fields → Checked
  unfolding row_key
  check_rows seek inclusive end [] = fine
  check_rows seek inclusive end (row ∷ rest) =
      let later = check_rows seek inclusive end rest in
      elim (row_key row) [
        | none ↦ undecodable
        | some key ↦ if in_window seek inclusive end key then later else outside key
      ]

  unfoldable pub last_key : List Fields → Option Bytes
  unfolding row_key
  last_key [] = none
  last_key (row ∷ []) = row_key row
  last_key (row ∷ next ∷ rest) = last_key (next ∷ rest)

  -- POST /db/scan with this limit: the rows, or an exception.
  module _ {Net : Type 0} (scan : Net → Bytes → Bool → Bytes → Option (List Fields) × Net)
      (limit : ℕ) where
    unfoldable pub window : ℕ → Bytes → Bool → Bytes → List Fields → Net → WindowRead
    window zero seek inclusive end entries net = out_of_fuel
    window (suc fuel) seek inclusive end entries net = elim (scan net seek inclusive end).0 [
      | none ↦ raised
      | some page ↦ elim (check_rows seek inclusive end page) [
        | undecodable ↦ raised
        | outside key ↦ bounded_read_fault key
        | fine ↦ elim (ltb (length page) limit) [
          | true ↦ rows (entries ++ page)
          | false ↦ elim (last_key page) [
            | none ↦ raised
            | some key ↦ window fuel key false end (entries ++ page) (scan net seek inclusive end).1
          ]
        ]
      ]
    ]

    -- `_faults_in_tx_window`
    unfoldable pub faults_in_tx_window : ℕ → ℕ → ℕ → Net → WindowRead
    unfolding window tx_bound
    faults_in_tx_window fuel min_tx max_tx net =
        window fuel (tx_bound min_tx) true (tx_bound (max_tx + 1)) [] net
