-- ===== src/Relation/Score.antt =====
-- src/as-relation-check-result.c: the compatibility score of a list of check results. The score is
-- an unbounded integer here; a `gint` holds it for all lists shorter than 2^26.
use appstream.Base.{
  ℕ, Bool, true, false, not, ◌&&◌, Option, none, some, List, [], ◌∷◌, if◌then◌else◌, ℤ, pos, negsuc,
  ltb_ℤ, ◌+ℤ◌, ◌-ℤ◌,
}
pub mod Bounds
pub mod Order
use appstream.Relation.Kinds.{RelationKind, ItemKind}
use appstream.Relation.{Relation}
use appstream.Relation.Check.{Status, unknown, satisfied, Checked}

-- The variables of the loop.
pub record Tally : Type 0 where
  pub score : ℤ
  pub have_control_supports : Bool
  pub found_supported_control : Bool

abbrev pub is_satisfied_status : Status → Bool
is_satisfied_status satisfied = true
is_satisfied_status _ = false

abbrev pub is_control : ItemKind → Bool
is_control ItemKind.control = true
is_control _ = false

abbrev pub is_display : ItemKind → Bool
is_display ItemKind.display_length = true
is_display _ = false

-- A required item: `none` is the early return of 0.
unfoldable pub tally_requires : Status → Tally → Option Tally
tally_requires unknown t = some (record t { score = t.score -ℤ pos 30 })
tally_requires satisfied t = some t
tally_requires _ t = none

-- A recommended item.
pub tally_recommends : ItemKind → Status → Tally → Tally
tally_recommends item status t =
    let seen = if is_control item then record t { have_control_supports = true } else t in
    let lost = seen.score -ℤ pos 10 in
    if not (is_satisfied_status status)
    then record seen { score = if is_display item then lost -ℤ pos 20 else lost }
    else if is_control item
    then record seen { found_supported_control = true; score = seen.score +ℤ pos 5 }
    else seen

-- A supported item.
pub tally_supports : ItemKind → Status → Tally → Tally
tally_supports item status t =
    let seen = record t { have_control_supports = true } in
    let hit = record seen { score = seen.score +ℤ pos 4; found_supported_control = true } in
    if is_control item
    then (if is_satisfied_status status then hit else seen)
    else if is_satisfied_status status
    then record t { score = t.score +ℤ pos 2 }
    else t

-- One round of the loop; a result with no relation is passed over.
unfoldable pub tally_result : Checked → Tally → Option Tally
tally_result c t = elim c.relation [
  | none ↦ some t
  | some r ↦ elim r.kind [
    | RelationKind.requires ↦ tally_requires c.status t
    | RelationKind.recommends ↦ some (tally_recommends r.item_kind c.status t)
    | RelationKind.supports ↦ some (tally_supports r.item_kind c.status t)
    | RelationKind.unknown ↦ some t
  ]
]

unfoldable pub tally_all : List Checked → Tally → Option Tally
tally_all [] t = some t
tally_all (c ∷ cs) t = elim (tally_result c t) [ none ↦ none | some t' ↦ tally_all cs t' ]

-- What stands behind the loop.
unfoldable pub final_score : Tally → ℤ
final_score t =
    let score =
      if t.have_control_supports && not t.found_supported_control
      then t.score -ℤ pos 60
      else t.score in
    if ltb_ℤ score (pos 0) then pos 0 else if ltb_ℤ (pos 100) score then pos 100 else score

abbrev pub start : Tally
start = record { score = pos 100; have_control_supports = false; found_supported_control = false }

-- `as_relation_check_results_get_compatibility_score`
unfoldable pub get_compatibility_score : List Checked → ℤ
get_compatibility_score cs = elim (tally_all cs start) [ none ↦ pos 0 | some t ↦ final_score t ]
