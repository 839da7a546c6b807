-- ===== src/Verifier/Anchor.antt =====
-- `_VerifiedRootService` of verifier/main.py: the trust anchor of the verifier, which the SDK asks for
-- and moves. The signature check, the pickle file and the RPC are the parameter `Platform`.
pub mod Checked
pub mod Order
use compliance_ail.Common.{
  ◌≡◌, ◌⊎◌, ℕ, Bool, true, false, ◌==◌, ltb, Option, none, some, List, [], ◌∷◌, if◌then◌else◌, Text,
  Bytes, bytes_eq,
}
use compliance_ail.Verifier.Ledger.{Failure, Reply, ok, fail}

-- A state of the ledger, as its server publishes it.
pub record State : Type 0 where
  pub db : Text
  pub tx_id : ℕ
  pub tx_hash : Bytes
  pub signature : Bytes

-- The dictionary in the state file.
abbrev pub States : Type 0
States = List (Text × State)

unfoldable pub find_state : Text → States → Option State
find_state name [] = none
find_state name ((n, s) ∷ rest) = if bytes_eq n name then some s else find_state name rest

unfoldable pub put_state : Text → State → States → States
put_state name s [] = (name, s) ∷ []
put_state name s ((n, t) ∷ rest) =
    if bytes_eq n name then (name, s) ∷ rest else (n, t) ∷ put_state name s rest

pub data Loaded : Type 0 where
  missing unreadable : Loaded
  loaded : States → Loaded

-- `state.Verify(key)` returns, raises BadSignatureError, or raises something else.
pub data Verified : Type 0 where
  good bad_signature : Verified
  broken : Failure → Verified

pub record Platform : Type 1 where
  pub Key : Type 0
  pub verify : Key → State → Verified
  pub Files : Type 0
  pub load : Files → Loaded
  -- `open(filename, "wb")` and `pickle.dump`; false where either raises.
  pub dump : Files → States → Bool × Files
  pub Server : Type 0
  pub current_state : Server → Reply State × Server

-- What writing a file documents: what was written is what is read, and a write that raises leaves
-- the file as it was or cut short.
pub record IsFileSystem (P : Platform) : Type 0 where
  pub dump_ok :
      (f : P.Files) (states : States)
      → (P.dump f states).0 ≡ true
      → P.load (P.dump f states).1 ≡ loaded states
  pub dump_raised :
      (f : P.Files) (states : States)
      → (P.dump f states).0 ≡ false
      → (P.load (P.dump f states).1 ≡ P.load f) ⊎ (P.load (P.dump f states).1 ≡ unreadable)

-- Why an operation raises: the three cases of UnverifiedState, and what the platform raises.
pub data Unverified : Type 0 where
  no_key not_signed : Unverified
  moves_backwards : ℕ → ℕ → Unverified
  raised : Failure → Unverified
  not_written : Unverified

module _ (P : Platform) where
  pub record RootService : Type 0 where
    pub verifying_key : Option P.Key
    pub dbname : Option Text
    pub cache : Option State
    pub files : P.Files
    pub server : P.Server

  signed : Verified → Option Unverified
  signed good = none
  signed bad_signature = some not_signed
  signed (broken f) = some (raised f)

  checked_by : Option P.Key → State → Option Unverified
  unfolding signed
  checked_by none s = some no_key
  checked_by (some k) s = signed (P.verify k s)

  -- `_checked`
  unfoldable pub checked : Option P.Key → State → Option Unverified
  unfolding checked_by
  checked k s = if s.tx_id == 0 then none else checked_by k s

  -- The cache is filled with the head where `_checked` lets it through.
  fill : RootService → State → Option Unverified → Option Unverified × RootService
  fill r s none = (none, record r { cache = some s })
  fill r s (some e) = (some e, r)

  fill_head : RootService → Reply State × P.Server → Option Unverified × RootService
  unfolding fill
  fill_head r (fail f, v) = (some (raised f), record r { server = v })
  fill_head r (ok s, v) = fill (record r { server = v }) s (checked r.verifying_key s)

  -- `self._cache = self._head(...)`, where nothing is cached.
  unfoldable pub ensure : RootService → Option State → Option Unverified × RootService
  unfolding fill_head
  ensure r (some s) = (none, r)
  ensure r none = fill_head r (P.current_state r.server)

  cached_in : Text → Loaded → Option State
  cached_in name missing = none
  cached_in name unreadable = none
  cached_in name (loaded states) = find_state name states

  unfoldable pub init : RootService → Text → Option Unverified × RootService
  unfolding ensure cached_in
  init r name =
      let found = cached_in name (P.load r.files) in
      ensure (record r { dbname = some name; cache = found }) found

  -- `get` returns the cache that it leaves.
  unfoldable pub get_anchor : RootService → Option Unverified × RootService
  unfolding ensure
  get_anchor r = ensure r r.cache

  others : Loaded → States
  others missing = []
  others unreadable = []
  others (loaded states) = states

  dumped : RootService → Bool × P.Files → Option Unverified × RootService
  dumped r (true, f) = (none, record r { files = f })
  dumped r (false, f) = (some not_written, record r { files = f })

  -- The dictionary key is `self._dbname`, which `init` sets.
  keyed : Option Text → Text
  keyed none = []
  keyed (some name) = name

  store : RootService → State → Option Unverified × RootService
  unfolding dumped others keyed
  store r s =
      dumped (record r { cache = some s })
        (P.dump r.files (put_state (keyed r.dbname) s (others (P.load r.files))))

  moved : RootService → State → Option State → Option Unverified × RootService
  unfolding store
  moved r s none = store r s
  moved r s (some held) =
      if ltb s.tx_id held.tx_id then (some (moves_backwards held.tx_id s.tx_id), r) else store r s

  set_checked : RootService → State → Option Unverified → Option Unverified × RootService
  unfolding moved
  set_checked r s (some e) = (some e, r)
  set_checked r s none = moved r s r.cache

  -- `set`
  unfoldable pub set_anchor : RootService → State → Option Unverified × RootService
  unfolding set_checked
  set_anchor r s = set_checked r s (checked r.verifying_key s)

  -- What the SDK calls.
  pub data Call : Type 0 where
    calls_init : Text → Call
    calls_get : Call
    calls_set : State → Call

  unfoldable pub step : RootService → Call → RootService
  step r (calls_init name) = (init r name).1
  step r calls_get = (get_anchor r).1
  step r (calls_set s) = (set_anchor r s).1

  -- The calls of one process, whichever of them raise.
  unfoldable pub run : RootService → List Call → RootService
  unfolding step
  run r [] = r
  run r (c ∷ rest) = run (step r c) rest
