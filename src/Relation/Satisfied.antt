-- ===== src/Relation/Satisfied.antt =====
-- src/as-relation.c: as_relation_is_satisfied, and the score of a list of results from
-- src/as-relation-check-result.c.
pub mod Outcomes
pub mod About
use appstream.Base.{Option}
use appstream.Relation.Kinds.{ItemKind}
use appstream.Relation.{Relation}
use appstream.Relation.Check.{
  not_implemented, fails, Pool, Checks, finish, check_id, check_modalias,
}
use appstream.Relation.Kernel.{check_kernel}
use appstream.Relation.Amounts.{check_memory, check_display_length}
use appstream.Relation.Controls.{check_control}
use appstream.SystemInfo.{Host}

-- `as_relation_is_satisfied`, on the system information at hand. The last error message names the
-- kind of the item.
unfoldable pub is_satisfied : Host → Option Pool → Relation → Checks
is_satisfied h pool r s = elim r.item_kind [
  | ItemKind.id ↦ check_id pool r s
  | ItemKind.modalias ↦ check_modalias h r s
  | ItemKind.kernel ↦ check_kernel h r s
  | ItemKind.memory ↦ check_memory h r s
  | ItemKind.control ↦ check_control h r s
  | ItemKind.display_length ↦ check_display_length r s
  | _ ↦ finish (fails not_implemented) s
]
