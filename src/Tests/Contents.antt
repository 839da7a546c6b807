-- ===== src/Tests/Contents.antt =====
-- One call with content: an erasure behind a verified tombstone, and a write of another call's content.
use compliance_ail.Common.{◌≡◌, ◌≢◌, refl, true, none, some, [], ◌∷◌, codes, bytes_eq}
use compliance_ail.Common.Json.{bool, str, obj, end, field}
use compliance_ail.ControlPlane.Content.{
  Outside, body, entries, Contents, find_content, no_content, write_content, erase_content,
}
use compliance_ail.ControlPlane.Content.Erased.{Unerased, KeepsOthers, write_content-Unerased}
use compliance_ail.ControlPlane.Content.Deleted.{Tombstoned, erase_content-Tombstoned}
use compliance_ail.Tests.Samples.{toy}

abbrev outside : Outside toy
outside = record {
  Net = Unit {0};
  writer_keys = some (tt, tt);
  utcnow = λ n. (b't' ∷ [], n);
  dumps = λ d. [];
  loads = λ b. none;
  int_of = λ j. none;
  is_nonzero = λ t. true;
  verify = λ n k. (body (obj (field "error_class" (str (codes "not_found")) end)), n);
  write = λ n k v. (body (obj (field "verified" (bool true) end)), n);
  get_all = λ n k. (entries [], n);
  commit = λ n. (true, n);
}

abbrev stored : Contents
stored = (b'a' ∷ [], b'1' ∷ []) ∷ []

write_content-Unerased_example :
    (((write_content outside (b'b' ∷ []) (b'2' ∷ []) stored tt).0 ≢ no_content)
      → (write_content outside (b'b' ∷ []) (b'2' ∷ []) stored tt).1 ≡ stored)
    × (((write_content outside (b'b' ∷ []) (b'2' ∷ []) stored tt).0 ≡ no_content)
        → Unerased outside (b'b' ∷ []) tt
          × (find_content (b'b' ∷ []) (write_content outside (b'b' ∷ []) (b'2' ∷ []) stored tt).1
              ≡ some (b'2' ∷ []))
          × KeepsOthers
              (b'b' ∷ [])
              stored
              (write_content outside (b'b' ∷ []) (b'2' ∷ []) stored tt).1)
write_content-Unerased_example = write_content-Unerased outside (b'b' ∷ []) (b'2' ∷ []) stored tt

erase_content-Tombstoned_example :
    (((erase_content outside (b'a' ∷ []) stored tt).0 ≢ no_content)
      → (erase_content outside (b'a' ∷ []) stored tt).1 ≡ stored)
    × (((erase_content outside (b'a' ∷ []) stored tt).0 ≡ no_content)
        → Tombstoned outside (b'a' ∷ []) tt
          × (find_content (b'a' ∷ []) (erase_content outside (b'a' ∷ []) stored tt).1 ≡ none)
          × KeepsOthers (b'a' ∷ []) stored (erase_content outside (b'a' ∷ []) stored tt).1)
unfolding find_content bytes_eq
erase_content-Tombstoned_example =
    erase_content-Tombstoned outside (b'a' ∷ []) (b'1' ∷ []) stored tt refl
