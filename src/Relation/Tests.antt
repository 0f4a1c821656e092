-- ===== src/Relation/Tests.antt =====
-- Runs of the relation checks, and their theorems at concrete relations.
use mathlib.Core.List.Perm
use appstream.Base.{false, none, some, ◌≡◌, refl, codes, [], ◌∷◌, ◌++◌, pos, ◌≤ℤ◌}
use appstream.Relation.Kinds.{RelationKind, ItemKind, Compare, DisplaySideKind}
use appstream.Relation.{Relation, new, text, int32, version_compare}
use appstream.Relation.Check.{Checked, Status, satisfied, not_satisfied}
use appstream.Relation.Score.{get_compatibility_score}
use appstream.Relation.Score.Bounds.{score_bounds, score_fatal}
use appstream.Relation.Score.Order.{score-Perm}
use appstream.Relation.Version.{version_compare-test_match}
use appstream.SystemInfo.{Host, no_match}
use appstream.Vercmp.{value, vercmp_test_match}

abbrev bare_host : Host
bare_host = record {
  uname = some (codes "Linux", codes "6.1.0-13");
  physical_memory = 2048;
  sys_modaliases = [];
  device_name = λ m. none;
  has_device_with_property = λ key. no_match;
  pattern_match_simple = λ p s. false;
}

abbrev linux_5 : Relation
linux_5 = record new {
  kind = RelationKind.requires;
  item_kind = ItemKind.kernel;
  value = some (text (codes "Linux"));
  version = some (codes "5.4");
}

abbrev four_gib : Relation
four_gib = record new {
  kind = RelationKind.requires;
  item_kind = ItemKind.memory;
  value = some (int32 (pos 4096));
}

abbrev any_display : Relation
any_display = record new {
  kind = RelationKind.requires;
  item_kind = ItemKind.display_length;
  display_side_kind = DisplaySideKind.shortest;
}

abbrev firmware_relation : Relation
firmware_relation = record new { item_kind = ItemKind.firmware }

abbrev result : Relation → Status → Checked
result r s = record { relation = some r; status = s; message = none }

version_compare-test_match_example :
    version_compare linux_5 (some (codes "5.10"))
    ≡ vercmp_test_match (some (codes "5.10")) Compare.ge (some (codes "5.4")) false
version_compare-test_match_example = version_compare-test_match linux_5 (some (codes "5.10"))

score_bounds_example :
    (pos 0 ≤ℤ get_compatibility_score (result four_gib satisfied ∷ []))
    × (get_compatibility_score (result four_gib satisfied ∷ []) ≤ℤ pos 100)
score_bounds_example = score_bounds (result four_gib satisfied ∷ [])

score_fatal_example :
    get_compatibility_score ((result linux_5 satisfied ∷ []) ++ result four_gib not_satisfied ∷ [])
    ≡ pos 0
score_fatal_example =
    score_fatal (result linux_5 satisfied ∷ []) [] (result four_gib not_satisfied) four_gib
      (record { relation_is = refl; is_required = refl; is_known = cc; is_missed = cc })

score-Perm_example :
    get_compatibility_score (result linux_5 satisfied ∷ result any_display not_satisfied ∷ [])
    ≡ get_compatibility_score (result any_display not_satisfied ∷ result linux_5 satisfied ∷ [])
score-Perm_example = score-Perm (Perm.swap _ _ _)
