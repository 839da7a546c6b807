-- ===== src/Verifier/Anchor/Order.antt =====
-- The anchor of one process never moves backwards, and the next process starts from it.
use compliance_ail.Common.{
  ◌≡◌, refl, sym, ap, ◌∙◌, ℕ, Bool, true, false, ltb, ◌≤◌, Option, none, some, List, [], ◌∷◌, Text,
  bytes_eq, bytes_eq_refl, arith, inl, inr, Bool-cases,
}
use compliance_ail.Verifier.Anchor.{
  State, States, find_state, put_state, Platform, IsFileSystem, Unverified, RootService, checked,
  ensure, cached_in, init, get_anchor, others, dumped, keyed, store, moved, set_checked, set_anchor,
  Call, calls_init, calls_get, calls_set, step, run,
}

module _ (P : Platform) where
  -- The calls after the client has connected, which calls `init` once.
  unfoldable pub is_steady : List (Call P) → Bool
  is_steady [] = true
  is_steady (calls_init name ∷ rest) = false
  is_steady (calls_get ∷ rest) = is_steady rest
  is_steady (calls_set s ∷ rest) = is_steady rest

  -- The service holds an anchor at this transaction or after it.
  pub record Reaches (n : ℕ) (r : RootService P) : Type 0 where
    pub anchor : State
    pub cached : r.cache ≡ some anchor
    pub not_before : n ≤ anchor.tx_id

  ensure-Reaches :
      (n : ℕ) (r : RootService P) (c : Option State)
      → c ≡ r.cache
      → Reaches n r
      → Reaches n (ensure P r c).1
  unfolding ensure
  ensure-Reaches n r (some s) e h = h
  ensure-Reaches n r none e h = absurd (cc (e, h.cached))

  dumped-cache : (r : RootService P) (x : Bool × P.Files) → (dumped P r x).1.cache ≡ r.cache
  unfolding dumped
  dumped-cache r (true, f) = refl
  dumped-cache r (false, f) = refl

  store-cache : (r : RootService P) (s : State) → (store P r s).1.cache ≡ some s
  unfolding store
  store-cache r s =
      dumped-cache (record r { cache = some s })
        (P.dump r.files (put_state (keyed P r.dbname) s (others P (P.load r.files))))

  moved-Reaches :
      (n : ℕ) (r : RootService P) (s : State) (c : Option State)
      → c ≡ r.cache
      → Reaches n r
      → Reaches n (moved P r s c).1
  unfolding moved
  moved-Reaches n r s none e h = absurd (cc (e, h.cached))
  moved-Reaches n r s (some held) e h =
      let same : some held ≡ some h.anchor = e ∙ h.cached in
      let is_held : held ≡ h.anchor = cc same in
      let below : n ≤ held.tx_id = rw is_held h.not_before in
      elim (Bool-cases (ltb s.tx_id held.tx_id)) [
        | inl less ↦ rw less h
        | inr more ↦ rw more (record {
          anchor = s;
          cached = store-cache r s;
          not_before = ground (arith, more, below);
        })
      ]

  set_checked-Reaches :
      (n : ℕ) (r : RootService P) (s : State) (e : Option Unverified)
      → Reaches n r
      → Reaches n (set_checked P r s e).1
  unfolding set_checked
  set_checked-Reaches n r s (some e) h = h
  set_checked-Reaches n r s none h = moved-Reaches n r s r.cache refl h

  -- Over any calls of `get` and `set`, the anchor that was cached is followed only by anchors at the
  -- same transaction or a later one, whichever of the calls raise.
  pub run-Reaches :
      (n : ℕ) (r : RootService P) (calls : List (Call P))
      → is_steady calls ≡ true
      → Reaches n r
      → Reaches n (run P r calls)
  unfolding run is_steady step set_anchor get_anchor
  run-Reaches n r [] st h = h
  run-Reaches n r (calls_init name ∷ rest) st h = absurd (cc st)
  run-Reaches n r (calls_get ∷ rest) st h =
      run-Reaches n (step P r calls_get) rest st (ensure-Reaches n r r.cache refl h)
  run-Reaches n r (calls_set s ∷ rest) st h =
      run-Reaches n (step P r (calls_set s)) rest st
        (set_checked-Reaches n r s (checked P r.verifying_key s) h)

  find_state-put_state :
      (name : Text) (s : State) (states : States)
      → find_state name (put_state name s states) ≡ some s
  unfolding find_state put_state
  find_state-put_state name s [] = rw (bytes_eq_refl name) refl
  find_state-put_state name s ((n, t) ∷ rest) = elim (Bool-cases (bytes_eq n name)) [
    | inl e ↦ rw (e, bytes_eq_refl name) refl
    | inr e ↦ rw (e, e) (find_state-put_state name s rest)
  ]

  dumped-ok :
      (r : RootService P) (x : Bool × P.Files)
      → (dumped P r x).0 ≡ none
      → (x.0 ≡ true) × ((dumped P r x).1.files ≡ x.1)
  unfolding dumped
  dumped-ok r (true, f) h = (refl, refl)
  dumped-ok r (false, f) h = absurd (cc h)

  keyed-some : (o : Option Text) (name : Text) → o ≡ some name → keyed P o ≡ name
  unfolding keyed
  keyed-some none name e = absurd (cc e)
  keyed-some (some n) name e = cc e

  store-load :
      (F : IsFileSystem P) (r : RootService P) (s : State) (name : Text)
      → r.dbname ≡ some name
      → (store P r s).0 ≡ none
      → cached_in P name (P.load (store P r s).1.files) ≡ some s
  unfolding store cached_in
  store-load F r s name d h =
      let states : States = put_state (keyed P r.dbname) s (others P (P.load r.files)) in
      let (wrote, files) = dumped-ok (record r { cache = some s }) (P.dump r.files states) h in
      ap (λ f. cached_in P name (P.load f)) files
      ∙ ap (cached_in P name) (F.dump_ok r.files states wrote)
      ∙ ap (λ k. find_state name (put_state k s (others P (P.load r.files))))
          (keyed-some r.dbname name d)
      ∙ find_state-put_state name s (others P (P.load r.files))

  moved-ok :
      (r : RootService P) (s : State) (c : Option State)
      → (moved P r s c).0 ≡ none
      → moved P r s c ≡ store P r s
  unfolding moved
  moved-ok r s none h = refl
  moved-ok r s (some held) h = elim (Bool-cases (ltb s.tx_id held.tx_id)) [
    | inl less ↦ absurd (ground (arith, less, h))
    | inr more ↦ rw more refl
  ]

  set_checked-ok :
      (r : RootService P) (s : State) (e : Option Unverified)
      → (set_checked P r s e).0 ≡ none
      → set_checked P r s e ≡ store P r s
  unfolding set_checked
  set_checked-ok r s (some e) h = absurd (cc h)
  set_checked-ok r s none h = moved-ok r s r.cache h

  ensure-some :
      (r : RootService P) (c : Option State) (s : State)
      → c ≡ some s
      → ((ensure P r c).0 ≡ none) × ((ensure P r c).1 ≡ r)
  unfolding ensure
  ensure-some r (some t) s e = (refl, refl)
  ensure-some r none s e = absurd (cc e)

  -- A process that starts on the file which a `set` that returned has left anchors at that very
  -- state, and asks the server for none.
  pub init-set_anchor :
      (F : IsFileSystem P) (r fresh : RootService P) (s : State) (name : Text)
      → r.dbname ≡ some name
      → (set_anchor P r s).0 ≡ none
      → fresh.files ≡ (set_anchor P r s).1.files
      → ((init P fresh name).0 ≡ none)
        × ((init P fresh name).1.cache ≡ some s)
        × ((init P fresh name).1.server ≡ fresh.server)
  unfolding init set_anchor
  init-set_anchor F r fresh s name d h f =
      let same : set_anchor P r s ≡ store P r s =
        set_checked-ok r s (checked P r.verifying_key s) h in
      let found : cached_in P name (P.load fresh.files) ≡ some s =
        ap (λ x. cached_in P name (P.load x)) (f ∙ ap (λ x. x.1.files) same)
        ∙ store-load F r s name d (ap (λ x. x.0) (sym same) ∙ h) in
      let (fine, stays) = ensure-some _ (cached_in P name (P.load fresh.files)) s found in
      (fine, ap (λ x. x.cache) stays ∙ found, ap (λ x. x.server) stays)
