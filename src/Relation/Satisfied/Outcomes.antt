-- ===== src/Relation/Satisfied/Outcomes.antt =====
-- What as_relation_is_satisfied gives, over all kinds of items.
use appstream.Base.{◌≡◌, ◌≢◌, Bool, true, false, Option, Bytes}
use appstream.Relation.Kinds.{ItemKind}
use appstream.Relation.{Relation}
use appstream.Relation.Check.{Verdict, fails, not_implemented}
use appstream.SystemInfo.{Host, SystemInfo, get_kernel_version, get_kernel_name}
use appstream.Vercmp.{Outcome, value, over_read, out_of_fuel}
use appstream.Vercmp.Total.{ColonFirst?}

-- The version of the running kernel, as the check of a kernel reads it.
abbrev pub running_version : Host → SystemInfo → Option Bytes
running_version h s = (get_kernel_version h (get_kernel_name h s).0).1

-- A version, of the running kernel or of the relation, has its last dash ahead of its first colon.
abbrev pub IsMisread : Host → Relation → SystemInfo → Type 0
IsMisread h r s = ¬ (ColonFirst? (running_version h s) × ColonFirst? r.version)

-- A verdict other than the error for kinds of items that have no check, or an over-read for a reason.
abbrev IsChecked : Type 0 → Outcome Verdict → Type 0
IsChecked why (value v) = v ≢ fails not_implemented
IsChecked why over_read = why
IsChecked why out_of_fuel = ⊥

-- The kinds of items with a check of their own.
abbrev has_check : ItemKind → Bool
has_check ItemKind.unknown = false
has_check ItemKind.firmware = false
has_check ItemKind.hardware = false
has_check ItemKind.internet = false
has_check _ = true

-- The only reason for an over-read.
abbrev pub IsMisreadKernel : Host → Relation → SystemInfo → Type 0
IsMisreadKernel h r s = (r.item_kind ≡ ItemKind.kernel) × IsMisread h r s
