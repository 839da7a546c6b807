-- ===== src/Verifier/Anchor/Checked.antt =====
-- Every anchor that the verifier holds was checked, and it never moves backwards.
use compliance_ail.Common.{
  ◌≡◌, refl, sym, ◌∙◌, Bool, true, false, ◌==◌, ltb, Option, none, some, List, [], ◌∷◌, Text,
  bytes_eq, arith, inl, inr, Bool-cases,
}
use compliance_ail.Verifier.Ledger.{Reply, ok, fail}
use compliance_ail.Verifier.Anchor.{
  State, States, find_state, put_state, Loaded, missing, unreadable, loaded, Verified, good,
  bad_signature, broken, Platform, IsFileSystem, Unverified, RootService, signed, checked_by,
  checked, fill, fill_head, ensure, cached_in, init, get_anchor, others, dumped, keyed, store,
  moved, set_checked, set_anchor, Call, calls_init, calls_get, calls_set, step, run,
}

module _ (P : Platform) where
  -- The state of an empty ledger, or one that is signed by this key.
  pub data IsChecked (key : Option P.Key) (s : State) : Type 0 where
    of_empty : s.tx_id ≡ 0 → IsChecked key s
    of_signed : (k : P.Key) → key ≡ some k → P.verify k s ≡ good → IsChecked key s

  -- Each state that the file holds is checked.
  pub data AllChecked (key : Option P.Key) : States → Type 0 where
    all_nil : AllChecked key []
    all_cons :
        (name : Text) (s : State) (rest : States)
        → IsChecked key s
        → AllChecked key rest
        → AllChecked key ((name, s) ∷ rest)

  pub data FileChecked (key : Option P.Key) : Loaded → Type 0 where
    of_missing : FileChecked key missing
    of_unreadable : FileChecked key unreadable
    of_loaded : (states : States) → AllChecked key states → FileChecked key (loaded states)

  dump-FileChecked :
      (F : IsFileSystem P) (key : Option P.Key) (f : P.Files) (states : States)
      → FileChecked key (P.load f)
      → AllChecked key states
      → FileChecked key (P.load (P.dump f states).1)
  dump-FileChecked F key f states before all = elim (Bool-cases (P.dump f states).0) [
    | inl e ↦ rw (F.dump_ok f states e) (of_loaded states all)
    | inr e ↦ elim (F.dump_raised f states e) [
      | inl same ↦ rw same before
      | inr cut ↦ rw cut of_unreadable
    ]
  ]

  signed-none : (v : Verified) → signed P v ≡ none → v ≡ good
  unfolding signed
  signed-none good h = refl
  signed-none bad_signature h = absurd (cc h)
  signed-none (broken f) h = absurd (cc h)

  checked_by-none : (key : Option P.Key) (s : State) → checked_by P key s ≡ none → IsChecked key s
  unfolding checked_by
  checked_by-none none s h = absurd (cc h)
  checked_by-none (some k) s h = of_signed k refl (signed-none (P.verify k s) h)

  checked-IsChecked : (key : Option P.Key) (s : State) → checked P key s ≡ none → IsChecked key s
  unfolding checked
  checked-IsChecked key s h = elim (Bool-cases (s.tx_id == 0)) [
    | inl e ↦ of_empty (ground (arith, e))
    | inr e ↦ checked_by-none key s (ground (arith, e, h))
  ]

  put_state-AllChecked :
      (key : Option P.Key) (name : Text) (s : State) (states : States)
      → IsChecked key s
      → AllChecked key states
      → AllChecked key (put_state name s states)
  unfolding put_state
  put_state-AllChecked key name s [] c all_nil = all_cons name s [] c all_nil
  put_state-AllChecked key name s ((n, t) ∷ rest) c (all_cons _ _ _ d a) =
      elim (Bool-cases (bytes_eq n name)) [
        | inl e ↦ rw e (all_cons name s rest c a)
        | inr e ↦
            rw e (all_cons n t (put_state name s rest) d (put_state-AllChecked key name s rest c a))
      ]

  find_state-IsChecked :
      (key : Option P.Key) (name : Text) (states : States) (s : State)
      → AllChecked key states
      → find_state name states ≡ some s
      → IsChecked key s
  unfolding find_state
  find_state-IsChecked key name [] s a h = absurd (cc h)
  find_state-IsChecked key name ((n, t) ∷ rest) s (all_cons _ _ _ d a) h =
      elim (Bool-cases (bytes_eq n name)) [
        | inl e ↦ let same : t ≡ s = ground (arith, e, h) in rw (sym same) d
        | inr e ↦ find_state-IsChecked key name rest s a (ground (arith, e, h))
      ]

  -- What holds between the calls: the cached anchor and those in the file are checked.
  pub record Trusted (r : RootService P) : Type 0 where
    pub cache_checked : (s : State) → r.cache ≡ some s → IsChecked r.verifying_key s
    pub file_checked : FileChecked r.verifying_key (P.load r.files)

  none_cached : {A : Type 0} {s : State} → none ≡ some s → A
  none_cached h = absurd (cc h)

  fill-Trusted :
      (r : RootService P) (s : State) (e : Option Unverified)
      → e ≡ checked P r.verifying_key s
      → Trusted r
      → Trusted (fill P r s e).1
  unfolding fill
  fill-Trusted r s (some e) same t = t
  fill-Trusted r s none same t = record {
    cache_checked = λ a h.
        let eq : s ≡ a = cc h in rw (sym eq) (checked-IsChecked r.verifying_key s (sym same));
    file_checked = t.file_checked;
  }

  fill_head-Trusted :
      (r : RootService P) (x : Reply State × P.Server) → Trusted r → Trusted (fill_head P r x).1
  unfolding fill_head
  fill_head-Trusted r (fail f, v) t = record {
    cache_checked = t.cache_checked;
    file_checked = t.file_checked;
  }
  fill_head-Trusted r (ok s, v) t =
      fill-Trusted (record r { server = v }) s (checked P r.verifying_key s) refl
        (record { cache_checked = t.cache_checked; file_checked = t.file_checked })

  ensure-Trusted : (r : RootService P) (c : Option State) → Trusted r → Trusted (ensure P r c).1
  unfolding ensure
  ensure-Trusted r (some s) t = t
  ensure-Trusted r none t = fill_head-Trusted r (P.current_state r.server) t

  cached_in-IsChecked :
      (key : Option P.Key) (name : Text) (l : Loaded) (s : State)
      → FileChecked key l
      → cached_in P name l ≡ some s
      → IsChecked key s
  unfolding cached_in
  cached_in-IsChecked key name missing s f h = absurd (cc h)
  cached_in-IsChecked key name unreadable s f h = absurd (cc h)
  cached_in-IsChecked key name (loaded states) s (of_loaded _ a) h =
      find_state-IsChecked key name states s a h

  init-Trusted : (r : RootService P) (name : Text) → Trusted r → Trusted (init P r name).1
  unfolding init
  init-Trusted r name t = ensure-Trusted _ (cached_in P name (P.load r.files)) (record {
    cache_checked =
        λ s h. cached_in-IsChecked r.verifying_key name (P.load r.files) s t.file_checked h;
    file_checked = t.file_checked;
  })

  get_anchor-Trusted : (r : RootService P) → Trusted r → Trusted (get_anchor P r).1
  unfolding get_anchor
  get_anchor-Trusted r t = ensure-Trusted r r.cache t

  others-AllChecked :
      (key : Option P.Key) (l : Loaded) → FileChecked key l → AllChecked key (others P l)
  unfolding others
  others-AllChecked key missing f = all_nil
  others-AllChecked key unreadable f = all_nil
  others-AllChecked key (loaded states) (of_loaded _ a) = a

  dumped-parts :
      (r : RootService P) (x : Bool × P.Files)
      → ((dumped P r x).1.cache ≡ r.cache)
        × ((dumped P r x).1.verifying_key ≡ r.verifying_key)
        × ((dumped P r x).1.files ≡ x.1)
  unfolding dumped
  dumped-parts r (true, f) = (refl, refl, refl)
  dumped-parts r (false, f) = (refl, refl, refl)

  store-Trusted :
      (F : IsFileSystem P) (r : RootService P) (s : State)
      → IsChecked r.verifying_key s
      → Trusted r
      → Trusted (store P r s).1
  unfolding store
  store-Trusted F r s c t =
      let states : States = put_state (keyed P r.dbname) s (others P (P.load r.files)) in
      let out : Bool × P.Files = P.dump r.files states in
      let (cache, key, files) = dumped-parts (record r { cache = some s }) out in
      let kept : FileChecked r.verifying_key (P.load out.1) =
        dump-FileChecked F r.verifying_key r.files states t.file_checked (
          put_state-AllChecked r.verifying_key (keyed P r.dbname) s (others P (P.load r.files)) c
            (others-AllChecked r.verifying_key (P.load r.files) t.file_checked)) in
      record {
        cache_checked = λ a h.
            let eq : some s ≡ some a = sym cache ∙ h in
            let same : s ≡ a = cc eq in rw (key, sym same) c;
        file_checked = rw (key, files) kept;
      }

  moved-Trusted :
      (F : IsFileSystem P) (r : RootService P) (s : State) (held : Option State)
      → IsChecked r.verifying_key s
      → Trusted r
      → Trusted (moved P r s held).1
  unfolding moved
  moved-Trusted F r s none c t = store-Trusted F r s c t
  moved-Trusted F r s (some h) c t = elim (Bool-cases (ltb s.tx_id h.tx_id)) [
    | inl e ↦ rw e t
    | inr e ↦ rw e (store-Trusted F r s c t)
  ]

  set_checked-Trusted :
      (F : IsFileSystem P) (r : RootService P) (s : State) (e : Option Unverified)
      → e ≡ checked P r.verifying_key s
      → Trusted r
      → Trusted (set_checked P r s e).1
  unfolding set_checked
  set_checked-Trusted F r s (some e) same t = t
  set_checked-Trusted F r s none same t =
      moved-Trusted F r s r.cache (checked-IsChecked r.verifying_key s (sym same)) t

  step-Trusted :
      (F : IsFileSystem P) (r : RootService P) (c : Call P) → Trusted r → Trusted (step P r c)
  unfolding step set_anchor
  step-Trusted F r (calls_init name) t = init-Trusted r name t
  step-Trusted F r calls_get t = get_anchor-Trusted r t
  step-Trusted F r (calls_set s) t = set_checked-Trusted F r s (checked P r.verifying_key s) refl t

  -- Whatever the SDK calls, and whichever calls raise, the anchor that is cached and those in the
  -- file stay the state of an empty ledger or signed by the configured key, if the file starts so.
  pub run-Trusted :
      (F : IsFileSystem P) (r : RootService P) (calls : List (Call P))
      → Trusted r
      → Trusted (run P r calls)
  unfolding run
  run-Trusted F r [] t = t
  run-Trusted F r (c ∷ rest) t = run-Trusted F (step P r c) rest (step-Trusted F r c t)
