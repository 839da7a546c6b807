-- ===== src/Tests/OneShot.antt =====
-- A concrete ledger that meets `IsLedger`: it takes one transaction, which writes no key twice, and
-- refuses the rest. Where it is lossy, the transaction takes effect and its answer is lost.
use compliance_ail.Common.{
  ◌≡◌, refl, ap, ◌⊎◌, inl, inr, ℕ, Bool, true, false, Option, none, some, List, [], ◌∷◌, arith,
  length, if◌then◌else◌, bytes_eq, bytes_eq_iff, Bytes, codes, contains, starts_with, Bool-cases,
  Option-cases,
}
use mathlib.Core.Path.{subst}
use compliance_ail.Verifier.Ledger.{
  Failure, rpc_error, other_error, Reply, ok, fail, Entry, Operation, kv, z_add, ExecAllRequest,
  Immudb, is_precondition_failed, Writes, IsLedger,
}

abbrev pub refused : Failure
refused = record { kind = rpc_error; text = codes "tx: precondition failed" }

abbrev pub timeout : Failure
timeout = record { kind = rpc_error; text = codes "timeout" }

abbrev pub duplicated : Failure
duplicated = record { kind = other_error; text = codes "duplicated keys" }

unfoldable pub written : Bytes → List Operation → Option Bytes
written k [] = none
written k (kv j v ∷ ops) = if bytes_eq j k then some v else written k ops
written k (z_add s n j ∷ ops) = written k ops

unfoldable pub distinct : List Operation → Bool
unfolding written
distinct [] = true
distinct (kv j v ∷ ops) = elim (written j ops) [ none ↦ distinct ops | some w ↦ false ]
distinct (z_add s n j ∷ ops) = distinct ops

written-Writes : (k v : Bytes) (ops : List Operation) → written k ops ≡ some v → Writes k v ops
unfolding written
written-Writes k v [] h = absurd (cc h)
written-Writes k v (kv j w ∷ ops) h = elim (Bool-cases (bytes_eq j k)) [
  | inl e ↦ inl (ground (arith, e, bytes_eq_iff j k))
  | inr n ↦ inr (written-Writes k v ops (ground (arith, n)))
]
written-Writes k v (z_add s n j ∷ ops) h = inr (written-Writes k v ops h)

Writes-written : (k v : Bytes) (ops : List Operation) → Writes k v ops → written k ops ≡ none → ⊥
unfolding written
Writes-written k v [] h n = h
Writes-written k v (kv j w ∷ ops) (inl e) n = ground (arith, e, bytes_eq_iff j k)
Writes-written k v (kv j w ∷ ops) (inr h) n = elim (Bool-cases (bytes_eq j k)) [
  | inl e ↦ absurd (ground (arith, e))
  | inr e ↦ Writes-written k v ops h (ground (arith, e))
]
Writes-written k v (z_add s m j ∷ ops) (inl e) n = absurd (cc e)
Writes-written k v (z_add s m j ∷ ops) (inr h) n = Writes-written k v ops h n

distinct-written :
    (k v w : Bytes) (ops : List Operation)
    → distinct ops ≡ true
    → Writes k v ops
    → written k ops ≡ some w
    → w ≡ v
unfolding distinct
distinct-written k v w [] d h e = elim h [ ]
distinct-written k v w (kv j u ∷ ops) d (inl same) e = ground (arith, same, bytes_eq_iff j k)
distinct-written k v w (kv j u ∷ ops) d (inr h) e = elim (Option-cases (written j ops)) [
  | inr (x, twice) ↦ absurd (ground (arith, twice))
  | inl once ↦ elim (Bool-cases (bytes_eq j k)) [
    | inl here ↦ absurd (
        Writes-written k v ops h
          (subst (λ i. written i ops ≡ none) ((bytes_eq_iff j k).0 here) once))
    | inr there ↦ distinct-written k v w ops (ground (arith, once)) h (ground (arith, there))
  ]
]
distinct-written k v w (z_add s n j ∷ ops) d (inl same) e = absurd (cc same)
distinct-written k v w (z_add s n j ∷ ops) d (inr h) e = distinct-written k v w ops d h e

unfoldable pub entry_of : Option Bytes → Option Entry
entry_of none = none
entry_of (some v) = some (record { value = v; tx = 7 })

module _ (lossy : Bool) where
  unfoldable pub one_get :
      Option ExecAllRequest → Bytes → Reply (Option Entry) × Option ExecAllRequest
  unfolding entry_of written
  one_get none k = (ok none, none)
  one_get (some r) k = (ok (entry_of (written k r.operations)), some r)

  unfoldable pub one_exec :
      Option ExecAllRequest → ExecAllRequest → Reply (Option ℕ) × Option ExecAllRequest
  unfolding distinct
  one_exec none r =
      if distinct r.operations
      then (if lossy then fail timeout else ok (some 7), some r)
      else (fail duplicated, none)
  one_exec (some q) r = (fail refused, some q)

  abbrev pub one_shot : Immudb
  one_shot = record {
    State = Option ExecAllRequest;
    connect = λ s. (ok tt, s);
    get = one_get;
    set = λ s k v. (ok 8, s);
    verified_set = λ s k v. (ok 9, s);
    verified_get = λ s k. (ok tt, s);
    exec_all = one_exec;
    z_scan = λ s z n. (ok [], s);
  }

  abbrev pub history : Option ExecAllRequest → List ExecAllRequest
  history none = []
  history (some r) = r ∷ []

  abbrev pub Has : Option ExecAllRequest → Bytes → Bytes → ℕ → Type 0
  Has none k v t = ⊥
  Has (some r) k v t = Writes k v r.operations × (t ≡ 7)

  get_same : (s : Option ExecAllRequest) (k : Bytes) → (one_get s k).1 ≡ s
  unfolding one_get
  get_same none k = refl
  get_same (some r) k = refl

  get-Has :
      (s : Option ExecAllRequest) (k : Bytes) (e : Entry)
      → (one_get s k).0 ≡ ok (some e)
      → Has (one_get s k).1 k e.value e.tx
  unfolding one_get
  get-Has none k e h = absurd (ground (arith, h))
  get-Has (some r) k e h = elim (Option-cases (written k r.operations)) [
    | inl n ↦ absurd (ground (arith, h, n))
    | inr (v, n) ↦
        (written-Writes k e.value r.operations (ground (arith, h, n)), ground (arith, h, n))
  ]

  law_ok :
      (s : Option ExecAllRequest) (r : ExecAllRequest) (t : Option ℕ)
      → (one_exec s r).0 ≡ ok t
      → history (one_exec s r).1 ≡ r ∷ history s
  unfolding one_exec
  law_ok none r t h = ground arith
  law_ok (some q) r t h = absurd (cc h)

  law_refused :
      (s : Option ExecAllRequest) (r : ExecAllRequest) (f : Failure)
      → (one_exec s r).0 ≡ fail f
      → is_precondition_failed f ≡ true
      → history (one_exec s r).1 ≡ history s
  unfolding one_exec
  law_refused none r f h p = elim (Bool-cases (distinct r.operations)) [
    | inr d ↦ rw (d, one_exec) refl
    | inl d ↦ absurd (ground (arith, d, timeout_other))
  ]
    where
      timeout_other : is_precondition_failed timeout ≡ false
      timeout_other = unfold is_precondition_failed contains codes starts_with in refl
  law_refused (some q) r f h p = refl

  law_lost :
      (s : Option ExecAllRequest) (r : ExecAllRequest) (f : Failure)
      → (one_exec s r).0 ≡ fail f
      → (history (one_exec s r).1 ≡ history s) ⊎ (history (one_exec s r).1 ≡ r ∷ history s)
  unfolding one_exec
  law_lost none r f h = elim (Bool-cases (distinct r.operations)) [
    | inl d ↦ inr (rw (d, one_exec) refl)
    | inr d ↦ inl (rw (d, one_exec) refl)
  ]
  law_lost (some q) r f h = inl refl

  law_read_back :
      (s : Option ExecAllRequest) (r : ExecAllRequest) (k v : Bytes) (e : Entry)
      → history (one_exec s r).1 ≡ r ∷ history s
      → Writes k v r.operations
      → (one_get (one_exec s r).1 k).0 ≡ ok (some e)
      → e.value ≡ v
  unfolding one_exec one_get
  law_read_back none r k v e took w h = elim (Bool-cases (distinct r.operations)) [
    | inr d ↦ absurd (ground (arith, took, d))
    | inl d ↦ elim (Option-cases (written k r.operations)) [
      | inl n ↦ absurd (ground (arith, d, n, h))
      | inr (x, n) ↦
          let same : x ≡ v = distinct-written k v x r.operations d w n in
          ground (arith, d, n, h, same)
    ]
  ]
  law_read_back (some q) r k v e took w h = absurd (omega (arith, ap length took))

  law_holds :
      (s : Option ExecAllRequest) (r : ExecAllRequest) (k v : Bytes) (t : ℕ)
      → (one_exec s r).0 ≡ ok (some t)
      → Writes k v r.operations
      → Has (one_exec s r).1 k v t
  unfolding one_exec
  law_holds none r k v t h w = elim (Bool-cases (distinct r.operations)) [
    | inr d ↦ absurd (ground (arith, d, h))
    | inl d ↦ rw (d, one_exec) (w, ground (arith, d, h))
  ]
  law_holds (some q) r k v t h w = absurd (cc h)

  law_keeps :
      (s : Option ExecAllRequest) (r : ExecAllRequest) (k v : Bytes) (t : ℕ)
      → Has s k v t
      → Has (one_exec s r).1 k v t
  unfolding one_exec
  law_keeps none r k v t h = elim h [ ]
  law_keeps (some q) r k v t h = h

  law_fresh :
      (s : Option ExecAllRequest) (r : ExecAllRequest) (x : Option ℕ) (k v : Bytes) (t : ℕ)
      → (one_exec s r).0 ≡ ok x
      → ¬ Has s k v t
  unfolding one_exec
  law_fresh none r x k v t h has = has
  law_fresh (some q) r x k v t h has = cc h

  pub one_shot-IsLedger : IsLedger one_shot
  one_shot-IsLedger = record {
    applied = history;
    Holds = Has;
    applied-connect = λ s. refl;
    applied-get = λ s k. ap history (get_same s k);
    applied-verified_get = λ s k. refl;
    applied-z_scan = λ s z n. refl;
    applied-set = λ s k v. refl;
    exec_ok = law_ok;
    exec_refused = law_refused;
    exec_lost = law_lost;
    read_back = λ s r k v e took w _ h. law_read_back s r k v e took w h;
    get_holds = get-Has;
    exec_holds = law_holds;
    get_keeps = λ s j k v t h. rw get_same h;
    connect_keeps = λ s k v t h. h;
    verified_get_keeps = λ s j k v t h. h;
    set_keeps = λ s j w k v t h. h;
    z_scan_keeps = λ s z n k v t h. h;
    exec_keeps = law_keeps;
    exec_created = λ s r x k v t h _. law_fresh s r x k v t h;
    exec_unmodified = λ s r x k n v t h _ has. absurd (law_fresh s r x k v t h has);
  }
