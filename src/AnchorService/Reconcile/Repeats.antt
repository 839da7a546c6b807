-- ===== src/AnchorService/Reconcile/Repeats.antt =====
-- No key is repeated exactly if no key stands at two places of the positions.
use compliance_ail.Common.{
  ◌≡◌, refl, sym, ap, ◌∙◌, ◌↔◌, ◌≤◌, List, [], ◌∷◌, ◌++◌, Text, arith, inl, inr, ◌⊎◌, Bool-cases,
  filter, In, length, length-append, bytes_eq, bytes_eq_iff,
}
use mathlib.Core.Path.{subst}
use compliance_ail.AnchorService.Collect.{Host, ViewRead}
use compliance_ail.AnchorService.Reconcile.{
  ByKey, add_score, add_keys, by_key, is_repeated, duplicated_in,
}

-- Each text stands at one place only.
abbrev pub Once : List Text → Type 0
Once [] = Unit {0}
Once (k ∷ ks) = ¬ In k ks × Once ks

module _ (H : Host) where
  -- The keys at all positions.
  abbrev pub keys_of : List (H.F × List Text) → List Text
  keys_of [] = []
  keys_of ((s, keys) ∷ rest) = keys ++ keys_of rest

  names : ByKey H.F → List Text
  names [] = []
  names ((k, found) ∷ rest) = k ∷ names rest

  IsFull : ByKey H.F → Type 0
  IsFull [] = Unit {0}
  IsFull ((k, found) ∷ rest) = (1 ≤ length found) × IsFull rest

  IsShort : ByKey H.F → Type 0
  IsShort [] = Unit {0}
  IsShort ((k, found) ∷ rest) = (length found ≤ 1) × IsShort rest

  filter-IsShort : (acc : ByKey H.F) → (filter (is_repeated H) acc ≡ []) ↔ IsShort acc
  unfolding filter is_repeated IsShort
  filter-IsShort [] = (λ h. tt, λ h. refl)
  filter-IsShort ((k, found) ∷ rest) =
      let (to, from) = filter-IsShort rest in
      elim (Bool-cases (is_repeated H (k, found))) [
        | inl long ↦ rw long (λ h. absurd (cc h), λ (l, t). absurd (ground (arith, long, l)))
        | inr short ↦ rw short (λ h. (ground (arith, short), to h), λ (l, t). from t)
      ]

  names-add_score :
      (key : Text) (score : H.F) (acc : ByKey H.F) (x : Text)
      → In x (names (add_score H key score acc)) ↔ (In x (names acc) ⊎ (x ≡ key))
  unfolding names add_score
  names-add_score key score [] x = (
    λ h. elim h [ inl e ↦ inr e | inr i ↦ elim i [ ] ],
    λ h. elim h [ inl i ↦ elim i [ ] | inr e ↦ inl e ],
  )
  names-add_score key score ((k, found) ∷ rest) x =
      let (to, from) = names-add_score key score rest x in
      elim (Bool-cases (bytes_eq k key)) [
        | inl same ↦
            rw same
              (inl, λ h. elim h [ inl i ↦ i | inr e ↦ inl (e ∙ sym ((bytes_eq_iff k key).0 same)) ])
        | inr other ↦ rw other (
          λ h. elim h [
            | inl e ↦ inl (inl e)
            | inr i ↦ elim (to i) [ inl j ↦ inl (inr j) | inr e ↦ inr e ]
          ],
          λ h. elim h [
            | inl (inl e) ↦ inl e
            | inl (inr i) ↦ inr (from (inl i))
            | inr e ↦ inr (from (inr e))
          ],
        )
      ]

  add_score-IsFull :
      (key : Text) (score : H.F) (acc : ByKey H.F) → IsFull acc → IsFull (add_score H key score acc)
  unfolding IsFull add_score
  add_score-IsFull key score [] f = (omega arith, tt)
  add_score-IsFull key score ((k, found) ∷ rest) (l, f) = elim (Bool-cases (bytes_eq k key)) [
    | inl same ↦ rw same (omega (arith, length-append found (score ∷ []), l), f)
    | inr other ↦ rw other (l, add_score-IsFull key score rest f)
  ]

  add_score-IsShort :
      (key : Text) (score : H.F) (acc : ByKey H.F)
      → IsFull acc
      → IsShort (add_score H key score acc) ↔ (IsShort acc × ¬ In key (names acc))
  unfolding IsFull IsShort names add_score
  add_score-IsShort key score [] f = (λ h. (tt, λ i. elim i [ ]), λ h. (omega arith, tt))
  add_score-IsShort key score ((k, found) ∷ rest) (l, f) =
      let (to, from) = add_score-IsShort key score rest f in
      elim (Bool-cases (bytes_eq k key)) [
        | inl same ↦ rw same (
          λ (s, t). absurd (omega (arith, length-append found (score ∷ []), l, s)),
          λ (s, fresh). absurd (fresh (inl (sym ((bytes_eq_iff k key).0 same)))),
        )
        | inr other ↦ rw other (
          λ (s, t).
              let (u, fresh) = to t in
              (
                (s, u),
                λ i. elim i [
                  | inl e ↦ absurd (ground (arith, other, (bytes_eq_iff k key).1 (sym e)))
                  | inr j ↦ fresh j
                ],
              ),
          λ ((s, t), fresh). (s, from (t, λ i. fresh (inr i))),
        )
      ]

  -- The keys one by one, each with its score.
  add_all : List (Text × H.F) → ByKey H.F → ByKey H.F
  add_all [] acc = acc
  add_all ((k, s) ∷ rest) acc = add_all rest (add_score H k s acc)

  firsts : List (Text × H.F) → List Text
  firsts [] = []
  firsts ((k, s) ∷ rest) = k ∷ firsts rest

  AreFresh : List Text → ByKey H.F → Type 0
  AreFresh [] acc = Unit {0}
  AreFresh (k ∷ ks) acc = ¬ In k (names acc) × AreFresh ks acc

  AreFresh-add_score :
      (key : Text) (score : H.F) (acc : ByKey H.F) (ks : List Text)
      → AreFresh ks (add_score H key score acc) ↔ (AreFresh ks acc × ¬ In key ks)
  unfolding AreFresh
  AreFresh-add_score key score acc [] = (λ h. (tt, λ i. elim i [ ]), λ h. tt)
  AreFresh-add_score key score acc (k ∷ ks) =
      let (to, from) = AreFresh-add_score key score acc ks in
      let (listed, unlisted) = names-add_score key score acc k in
      (
        λ (out, t).
            let (u, absent) = to t in
            (
              (λ i. out (unlisted (inl i)), u),
              λ i. elim i [ inl e ↦ out (unlisted (inr (sym e))) | inr j ↦ absent j ],
            ),
        λ ((out, t), absent). (
          λ i. elim (listed i) [ inl j ↦ out j | inr e ↦ absent (inl (sym e)) ],
          from (t, λ j. absent (inr j)),
        ),
      )

  add_all-IsShort :
      (ps : List (Text × H.F)) (acc : ByKey H.F)
      → IsFull acc
      → IsShort (add_all ps acc) ↔ (IsShort acc × Once (firsts ps) × AreFresh (firsts ps) acc)
  unfolding add_all firsts AreFresh
  add_all-IsShort [] acc f = (λ h. (h, tt, tt), λ h. h.0)
  add_all-IsShort ((k, s) ∷ rest) acc f =
      let (to, from) = add_all-IsShort rest (add_score H k s acc) (add_score-IsFull k s acc f) in
      let (short_to, short_from) = add_score-IsShort k s acc f in
      let (fresh_to, fresh_from) = AreFresh-add_score k s acc (firsts rest) in
      (
        λ h.
            let (short, once, fresh) = to h in
            let (short', out) = short_to short in
            let (fresh', absent) = fresh_to fresh in (short', (absent, once), (out, fresh')),
        λ (short, (absent, once), (out, fresh)).
            from (short_from (short, out), once, fresh_from (fresh, absent)),
      )

  flat : H.F → List Text → List (Text × H.F) → List (Text × H.F)
  flat s [] rest = rest
  flat s (k ∷ ks) rest = (k, s) ∷ flat s ks rest

  pairs : List (H.F × List Text) → List (Text × H.F)
  unfolding flat
  pairs [] = []
  pairs ((s, keys) ∷ rest) = flat s keys (pairs rest)

  add_all-flat :
      (s : H.F) (keys : List Text) (rest : List (Text × H.F)) (acc : ByKey H.F)
      → add_all (flat s keys rest) acc ≡ add_all rest (add_keys H s keys acc)
  unfolding add_all flat add_keys
  add_all-flat s [] rest acc = refl
  add_all-flat s (k ∷ ks) rest acc = add_all-flat s ks rest (add_score H k s acc)

  by_key-pairs :
      (ps : List (H.F × List Text)) (acc : ByKey H.F) → by_key H ps acc ≡ add_all (pairs ps) acc
  unfolding by_key pairs add_all
  by_key-pairs [] acc = refl
  by_key-pairs ((s, keys) ∷ rest) acc =
      by_key-pairs rest (add_keys H s keys acc) ∙ sym (add_all-flat s keys (pairs rest) acc)

  firsts-flat :
      (s : H.F) (keys : List Text) (rest : List (Text × H.F))
      → firsts (flat s keys rest) ≡ keys ++ firsts rest
  unfolding firsts flat
  firsts-flat s [] rest = refl
  firsts-flat s (k ∷ ks) rest = ap (λ t. k ∷ t) (firsts-flat s ks rest)

  firsts-pairs : (ps : List (H.F × List Text)) → firsts (pairs ps) ≡ keys_of ps
  unfolding firsts pairs
  firsts-pairs [] = refl
  firsts-pairs ((s, keys) ∷ rest) =
      firsts-flat s keys (pairs rest) ∙ ap (λ t. keys ++ t) (firsts-pairs rest)

  AreFresh-nil : (ks : List Text) → AreFresh ks []
  unfolding AreFresh names
  AreFresh-nil [] = tt
  AreFresh-nil (k ∷ ks) = (λ i. elim i [ ], AreFresh-nil ks)

  pub duplicated_in-Once :
      (v : ViewRead H.F) → (duplicated_in H v ≡ []) ↔ Once (keys_of v.positions)
  unfolding duplicated_in IsShort IsFull
  duplicated_in-Once v =
      let (short_to, short_from) = filter-IsShort (by_key H v.positions []) in
      let (to, from) = add_all-IsShort (pairs v.positions) [] tt in
      let flat_eq = by_key-pairs v.positions [] in
      let firsts_eq = firsts-pairs v.positions in
      (
        λ h. subst Once firsts_eq (to (subst IsShort flat_eq (short_to h))).1,
        λ once.
            let short : IsShort (add_all (pairs v.positions) []) =
              from
                (tt, subst Once (sym firsts_eq) once, AreFresh-nil (firsts (pairs v.positions))) in
            short_from (subst IsShort (sym flat_eq) short),
      )
