-- ===== src/Relation/Satisfied/About.antt =====
-- The check results of as_relation_is_satisfied name the relation that was checked.
use appstream.Base.{◌≡◌, Option, some, arith, inl, inr, Option-cases, Bytes}
use appstream.Relation.{Relation, get_value_str}
use appstream.Relation.Check.{Verdict, gives, fails, Pool, check_id, check_modalias}
use appstream.Relation.Satisfied.{is_satisfied}
use appstream.Relation.Kernel.{
  check_kernel, check_kernel_version, kernel_version_verdict, kernel_name_verdict,
}
use appstream.Relation.Amounts.{check_memory, memory_verdict, check_display_length, display_verdict}
use appstream.Relation.Controls.{check_control, control_verdict}
use appstream.SystemInfo.{Host, SystemInfo, get_kernel_name}
use appstream.Vercmp.{Outcome, value, over_read, out_of_fuel}

-- A check result has this relation, if there is a result.
abbrev pub IsAbout : Relation → Outcome Verdict → Type 0
IsAbout r (value (gives c)) = c.relation ≡ some r
IsAbout r (value (fails e)) = Unit
IsAbout r over_read = Unit
IsAbout r out_of_fuel = Unit

check_id-IsAbout :
    (pool : Option Pool) (r : Relation) (s : SystemInfo) → IsAbout r (check_id pool r s).1
unfolding check_id
check_id-IsAbout pool r s = ground arith

check_modalias-IsAbout :
    (h : Host) (r : Relation) (s : SystemInfo) → IsAbout r (check_modalias h r s).1
unfolding check_modalias
check_modalias-IsAbout h r s = ground arith

check_memory-IsAbout : (h : Host) (r : Relation) (s : SystemInfo) → IsAbout r (check_memory h r s).1
unfolding check_memory memory_verdict
check_memory-IsAbout h r s = ground arith

check_control-IsAbout :
    (h : Host) (r : Relation) (s : SystemInfo) → IsAbout r (check_control h r s).1
unfolding check_control control_verdict
check_control-IsAbout h r s = ground arith

check_display-IsAbout : (r : Relation) (s : SystemInfo) → IsAbout r (check_display_length r s).1
unfolding check_display_length display_verdict
check_display-IsAbout r s = ground arith

kernel_version-IsAbout :
    (h : Host) (r : Relation) (name req : Bytes) (s : SystemInfo)
    → IsAbout r (check_kernel_version h r name req s).1
unfolding check_kernel_version kernel_version_verdict
kernel_version-IsAbout h r name req s = elim (Option-cases r.version) [
  | inl e ↦ ground arith
  | inr (v, e) ↦ ground arith
]

check_kernel-IsAbout : (h : Host) (r : Relation) (s : SystemInfo) → IsAbout r (check_kernel h r s).1
unfolding check_kernel kernel_name_verdict
check_kernel-IsAbout h r s = elim (Option-cases (get_kernel_name h s).1) [
  | inl e ↦ ground arith
  | inr (name, e) ↦ elim (Option-cases (get_value_str r)) [
    | inl f ↦ ground arith
    | inr (req, f) ↦ ground (arith, kernel_version-IsAbout h r name req (get_kernel_name h s).0)
  ]
]

pub is_satisfied-IsAbout :
    (h : Host) (pool : Option Pool) (r : Relation) (s : SystemInfo)
    → IsAbout r (is_satisfied h pool r s).1
unfolding is_satisfied
is_satisfied-IsAbout h pool r s = ground (
  arith,
  check_id-IsAbout pool r s,
  check_modalias-IsAbout h r s,
  check_kernel-IsAbout h r s,
  check_memory-IsAbout h r s,
  check_control-IsAbout h r s,
  check_display-IsAbout r s,
)
