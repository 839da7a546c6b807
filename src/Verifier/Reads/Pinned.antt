-- ===== src/Verifier/Reads/Pinned.antt =====
-- A read against a checkpoint moves nothing: neither the cached anchor nor the state file.
use compliance_ail.Common.{◌≡◌, refl, inl, inr, Option, none, some, Bytes, Bool-cases}
use compliance_ail.Verifier.Ledger.{Reply, ok, fail}
use compliance_ail.Verifier.Anchor.{State, Platform, RootService, ensure, get_anchor}
use compliance_ail.Verifier.Answers.{AnchorState, SafeGet, Sdk}
use compliance_ail.Verifier.Reads.{
  held, state_read, report, settle, precedes, settled, proved, fetched, prove, state_of, is_signed,
  from_anchor, connected, verify,
}

module _ {P : Platform} (K : Sdk P) where
  -- The same cached anchor and the same file.
  pub record Unmoved (before after : RootService P) : Type 0 where
    pub same_cache : after.cache ≡ before.cache
    pub same_files : after.files ≡ before.files

  ensure-Unmoved :
      (r : RootService P) (c : Option State) (s : State) → c ≡ some s → Unmoved r (ensure P r c).1
  unfolding ensure
  ensure-Unmoved r (some t) s e = record { same_cache = refl; same_files = refl }
  ensure-Unmoved r none s e = absurd (cc e)

  state_read-Unmoved :
      (a : AnchorState) (r : RootService P) (s : State)
      → r.cache ≡ some s
      → Unmoved r (state_read K (some a) r).1
  unfolding state_read held get_anchor
  state_read-Unmoved a r s e = ensure-Unmoved r r.cache s e

  settled-Unmoved :
      (a : AnchorState) (source : State) (entry : K.Entry) (resp : SafeGet) (r : RootService P)
      (s : State)
      → r.cache ≡ some s
      → Unmoved r (settled K (some a) source entry resp (none, r)).1
  unfolding settled report
  settled-Unmoved a source entry resp r s e = elim (Bool-cases (precedes K (some a) resp source)) [
    | inl early ↦ rw early (record { same_cache = refl; same_files = refl })
    | inr fine ↦ rw fine (state_read-Unmoved a r s e)
  ]

  proved-Unmoved :
      (a : AnchorState) (source : State) (entry : K.Entry) (x : Reply (SafeGet × State))
      (r : RootService P) (s : State)
      → r.cache ≡ some s
      → Unmoved r (proved K (some a) source entry x r).1
  unfolding proved settle
  proved-Unmoved a source entry (fail f) r s e = record { same_cache = refl; same_files = refl }
  proved-Unmoved a source entry (ok (resp, new)) r s e = settled-Unmoved a source entry resp r s e

  fetched-Unmoved :
      (a : AnchorState) (source : State) (key : Bytes) (r : RootService P)
      (x : Reply K.Entry × P.Server) (s : State)
      → r.cache ≡ some s
      → Unmoved r (fetched K (some a) source key r x).1
  unfolding fetched
  fetched-Unmoved a source key r (fail f, v) s e = record { same_cache = refl; same_files = refl }
  fetched-Unmoved a source key r (ok entry, v) s e =
      let there : Unmoved (record r { server = v })
          (proved K (some a) source entry (K.check entry source key K.client_key)
            (record r { server = v })).1 =
        proved-Unmoved a source entry (K.check entry source key K.client_key)
          (record r { server = v }) s e in
      record { same_cache = there.same_cache; same_files = there.same_files }

  from_anchor-Unmoved :
      (key : Bytes) (a : AnchorState) (o : Option State) (r : RootService P) (s : State)
      → r.cache ≡ some s
      → Unmoved r (from_anchor K key a o r).1
  unfolding from_anchor prove
  from_anchor-Unmoved key a none r s e = record { same_cache = refl; same_files = refl }
  from_anchor-Unmoved key a (some source) r s e =
      elim (Bool-cases (is_signed K K.client_key source)) [
        | inr bare ↦ rw bare (record { same_cache = refl; same_files = refl })
        | inl signed ↦
            rw signed
              (fetched-Unmoved a source key r (K.verifiable_get r.server key source.tx_id) s e)
      ]

  connected-Unmoved :
      (key : Bytes) (a : AnchorState) (x : Reply (Unit {0}) × RootService P) (s : State)
      → x.1.cache ≡ some s
      → Unmoved x.1 (connected K key (some a) x).1
  unfolding connected
  connected-Unmoved key a (fail f, r) s e = record { same_cache = refl; same_files = refl }
  connected-Unmoved key a (ok tt, r) s e = from_anchor-Unmoved key a (state_of K a) r s e

  -- A read against a supplied checkpoint, whatever it answers, leaves the anchor that the connected
  -- client holds and the state file as they were.
  pub verify-Unmoved :
      (key : Bytes) (a : AnchorState) (r : RootService P) (s : State)
      → (K.connect r).1.cache ≡ some s
      → Unmoved (K.connect r).1 (verify K key (some a) r).1
  unfolding verify
  verify-Unmoved key a r s e = connected-Unmoved key a (K.connect r) s e
