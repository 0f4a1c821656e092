-- ===== src/Component/Box/Tests.antt =====
-- Runs of the component box, and its theorem at a concrete box.
use appstream.Base.{false, none, some, [], ◌∷◌, ◌++◌, Bytes, codes, ◌≡◌, ◌↔◌, refl, true}
use appstream.Component.Search.Terms.{flags_contain}
use appstream.Component.Box.{no_checks, exists, is_member, Box, box_add}
use appstream.Component.Box.Distinct.{IsBox, box_add-IsBox}

abbrev same_id : Bytes → Bytes
same_id id = id

abbrev two_components : Box Bytes
two_components = record {
  flags = 0;
  cpts = codes "system/package/os/a/*" ∷ codes "system/package/os/b/*" ∷ [];
  cpt_map = some (codes "system/package/os/a/*" ∷ codes "system/package/os/b/*" ∷ []);
}

two_components-IsBox : IsBox same_id two_components
unfolding is_member
two_components-IsBox checked = (refl, (refl, (refl, _)))

box_add-IsBox_example :
    IsBox same_id (box_add same_id two_components (codes "system/package/os/b/*")).0
    × (((box_add same_id two_components (codes "system/package/os/b/*")).1 ≡ some exists) ↔ (
        (flags_contain two_components.flags no_checks ≡ false)
        × (is_member same_id (codes "system/package/os/b/*") two_components.cpts ≡ true)))
    × ((box_add same_id two_components (codes "system/package/os/b/*")).0.cpts
        ≡ elim (box_add same_id two_components (codes "system/package/os/b/*")).1 [
          | none ↦ two_components.cpts ++ codes "system/package/os/b/*" ∷ []
          | some e ↦ two_components.cpts
        ])
box_add-IsBox_example =
    box_add-IsBox same_id two_components (codes "system/package/os/b/*") two_components-IsBox
