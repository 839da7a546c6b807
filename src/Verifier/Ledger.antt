-- ===== src/Verifier/Ledger.antt =====
-- The client of ImmuDB as verifier/main.py calls it: a third-party package over a network, so its
-- calls are fields of a parameter. A state stands for the ledger and all that the network and
-- other writers do to it: any call may fail, and any call may find it further on.
use compliance_ail.Common.{
  ◌≡◌, ◌⊎◌, ℕ, ◌≤◌, Bool, true, Option, some, List, [], ◌∷◌, contains, Text, Bytes, codes, ℤ,
}

-- The exception classes that the code tells apart.
pub data FailureKind : Type 0 where
  corrupted_data bad_signature rpc_error other_error : FailureKind

-- An exception of a call: its class and `str(exc)`.
pub record Failure : Type 0 where
  pub kind : FailureKind
  pub text : Text

pub data Reply {ℓ} (A : Type ℓ) : Type ℓ where
  ok : A → Reply A
  fail : Failure → Reply A

-- What `client.get` returns.
pub record Entry : Type 0 where
  pub value : Bytes
  pub tx : ℕ

-- A score as `float(...)` reads it.
pub data Score : Type 0 where
  unreadable fractional : Score
  whole : ℤ → Score

-- An entry of `client.zScan`: `entry.key`, `entry.entry.key` and `entry.score`.
pub record ZEntry : Type 0 where
  pub key : Option Bytes
  pub inner_key : Option Bytes
  pub score : Score

pub data Operation : Type 0 where
  kv : Bytes → Bytes → Operation
  z_add : Bytes → ℤ → Bytes → Operation

pub data Precondition : Type 0 where
  key_must_not_exist : Bytes → Precondition
  key_not_modified_after : Bytes → ℕ → Precondition

pub record ExecAllRequest : Type 0 where
  pub operations : List Operation
  pub preconditions : List Precondition

pub record Immudb : Type 1 where
  pub State : Type 0
  -- `_get_client()`, which logs in on the first call.
  pub connect : State → Reply (Unit {0}) × State
  pub get : State → Bytes → Reply (Option Entry) × State
  pub set : State → Bytes → Bytes → Reply ℕ × State
  pub verified_set : State → Bytes → Bytes → Reply ℕ × State
  pub verified_get : State → Bytes → Reply (Unit {0}) × State
  -- The transaction of the response, if `int(resp.id)` reads one.
  pub exec_all : State → ExecAllRequest → Reply (Option ℕ) × State
  -- `zScan(zset, minscore=s, maxscore=s, limit=100)`
  pub z_scan : State → Bytes → ℤ → Reply (List ZEntry) × State

-- `"precondition failed" in str(exc)`
unfoldable pub is_precondition_failed : Failure → Bool
is_precondition_failed f = contains f.text (codes "precondition failed")

-- A request writes these bytes under this key; it is refused where the key exists.
abbrev pub Writes : Bytes → Bytes → List Operation → Type 0
Writes k v [] = ⊥
Writes k v (op ∷ ops) = (op ≡ kv k v) ⊎ Writes k v ops

abbrev pub Requires : Precondition → List Precondition → Type 0
Requires p [] = ⊥
Requires p (q ∷ ps) = (q ≡ p) ⊎ Requires p ps

-- What ImmuDB documents, as far as the code relies on it. `applied` are the transactions of this
-- client that took effect, the newest first; `Holds s k v t` says that the append-only ledger has
-- the version `v` of `k`, written by transaction `t`.
pub record IsLedger (I : Immudb) : Type 1 where
  pub applied : I.State → List ExecAllRequest
  pub Holds : I.State → Bytes → Bytes → ℕ → Type 0
  -- Reads apply nothing.
  pub applied-connect : (s : I.State) → applied (I.connect s).1 ≡ applied s
  pub applied-get : (s : I.State) (k : Bytes) → applied (I.get s k).1 ≡ applied s
  pub applied-verified_get : (s : I.State) (k : Bytes) → applied (I.verified_get s k).1 ≡ applied s
  pub applied-z_scan : (s : I.State) (z : Bytes) (n : ℤ) → applied (I.z_scan s z n).1 ≡ applied s
  pub applied-set : (s : I.State) (k v : Bytes) → applied (I.set s k v).1 ≡ applied s
  -- An answered request took effect, a refused one did not, and of any other failure either holds.
  pub exec_ok :
      (s : I.State) (r : ExecAllRequest) (t : Option ℕ)
      → (I.exec_all s r).0 ≡ ok t
      → applied (I.exec_all s r).1 ≡ r ∷ applied s
  pub exec_refused :
      (s : I.State) (r : ExecAllRequest) (f : Failure)
      → (I.exec_all s r).0 ≡ fail f
      → is_precondition_failed f ≡ true
      → applied (I.exec_all s r).1 ≡ applied s
  pub exec_lost :
      (s : I.State) (r : ExecAllRequest) (f : Failure)
      → (I.exec_all s r).0 ≡ fail f
      → (applied (I.exec_all s r).1 ≡ applied s) ⊎ (applied (I.exec_all s r).1 ≡ r ∷ applied s)
  -- A key that a request creates holds that request's bytes when it is read back.
  pub read_back :
      (s : I.State) (r : ExecAllRequest) (k v : Bytes) (e : Entry)
      → applied (I.exec_all s r).1 ≡ r ∷ applied s
      → Writes k v r.operations
      → Requires (key_must_not_exist k) r.preconditions
      → (I.get (I.exec_all s r).1 k).0 ≡ ok (some e)
      → e.value ≡ v
  -- A read that finds an entry found a version, and versions stay.
  pub get_holds :
      (s : I.State) (k : Bytes) (e : Entry)
      → (I.get s k).0 ≡ ok (some e)
      → Holds (I.get s k).1 k e.value e.tx
  pub exec_holds :
      (s : I.State) (r : ExecAllRequest) (k v : Bytes) (t : ℕ)
      → (I.exec_all s r).0 ≡ ok (some t)
      → Writes k v r.operations
      → Holds (I.exec_all s r).1 k v t
  pub get_keeps : (s : I.State) (j k v : Bytes) (t : ℕ) → Holds s k v t → Holds (I.get s j).1 k v t
  pub connect_keeps :
      (s : I.State) (k v : Bytes) (t : ℕ) → Holds s k v t → Holds (I.connect s).1 k v t
  pub verified_get_keeps :
      (s : I.State) (j k v : Bytes) (t : ℕ) → Holds s k v t → Holds (I.verified_get s j).1 k v t
  pub set_keeps :
      (s : I.State) (j w k v : Bytes) (t : ℕ) → Holds s k v t → Holds (I.set s j w).1 k v t
  pub z_scan_keeps :
      (s : I.State) (z : Bytes) (n : ℤ) (k v : Bytes) (t : ℕ)
      → Holds s k v t
      → Holds (I.z_scan s z n).1 k v t
  pub exec_keeps :
      (s : I.State) (r : ExecAllRequest) (k v : Bytes) (t : ℕ)
      → Holds s k v t
      → Holds (I.exec_all s r).1 k v t
  -- A request that took effect found its preconditions met.
  pub exec_created :
      (s : I.State) (r : ExecAllRequest) (x : Option ℕ) (k v : Bytes) (t : ℕ)
      → (I.exec_all s r).0 ≡ ok x
      → Requires (key_must_not_exist k) r.preconditions
      → ¬ Holds s k v t
  pub exec_unmodified :
      (s : I.State) (r : ExecAllRequest) (x : Option ℕ) (k : Bytes) (n : ℕ) (v : Bytes) (t : ℕ)
      → (I.exec_all s r).0 ≡ ok x
      → Requires (key_not_modified_after k n) r.preconditions
      → Holds s k v t
      → t ≤ n
