-- ===== src/Relation/Kernel.antt =====
-- src/as-relation.c, as_relation_is_satisfied: the check of the kernel.
use appstream.Base.{
  Bool, true, false, not, Option, none, some, [], ◌∷◌, if◌then◌else◌, Bytes, strcase_equal,
}
use appstream.Relation.Kinds.{RelationKind, compare_to_symbols_string}
use appstream.Relation.{Relation, get_value_str}
use appstream.Relation.Check.{
  not_satisfied, satisfied, bad_value, system_not_found, str, Verdict, fails, say, settled, worded,
  Checks, finish,
}
use appstream.SystemInfo.{Host, get_kernel_name, get_kernel_version}
use appstream.Vercmp.{value, over_read, out_of_fuel, vercmp_test_match}

-- The kernel's version, against the one that the relation asks for.
unfoldable pub kernel_version_verdict :
    Relation → Bytes → Bytes → Option Bytes → Bytes → Bool → Verdict
kernel_version_verdict r current_name req_name current_version req_version true =
    settled r satisfied
      (say "Kernel %s %s is supported." (str (some current_name) ∷ str current_version ∷ []))
kernel_version_verdict r current_name req_name current_version req_version false =
    let wanted =
      str (some req_name)
      ∷ str (compare_to_symbols_string r.compare)
      ∷ str (some req_version)
      ∷ [] in
    let compared =
      str (some req_name)
      ∷ str (compare_to_symbols_string r.compare)
      ∷ str (some req_version)
      ∷ str (some current_name)
      ∷ str current_version
      ∷ [] in
    elim r.kind [
      | RelationKind.requires ↦
          settled r not_satisfied
            (say "This software requires %s %s %s, but this system is running %s %s." compared)
      | RelationKind.recommends ↦
          settled r not_satisfied
            (say "The use of %s %s %s is recommended, but this system is running %s %s." compared)
      | RelationKind.supports ↦ settled r satisfied (say "This software supports %s %s %s." wanted)
      | RelationKind.unknown ↦ settled r not_satisfied none
    ]

unfoldable pub kernel_name_verdict : Relation → Bytes → Bytes → Verdict
kernel_name_verdict r req_name current_name =
    let args = str (some req_name) ∷ str (some current_name) ∷ [] in
    settled r not_satisfied (
      worded r.kind (say "This software requires a %s kernel, but this system is running %s." args)
        (say "This software recommends a %s kernel, but this system is running %s." args)
        (say "This software only supports a %s kernel, but may run on %s anyway." args))

-- The kernel's name is the one that is asked for; what is left is its version.
unfoldable pub check_kernel_version : Host → Relation → Bytes → Bytes → Checks
check_kernel_version h r current_name req_name s =
    let (s', current_version) = get_kernel_version h s in
    elim r.version [
      | none ↦ finish (settled r satisfied none) s'
      | some req_version ↦ (
        s',
        elim (vercmp_test_match current_version r.compare (some req_version) false) [
          | value ok ↦
              value (kernel_version_verdict r current_name req_name current_version req_version ok)
          | over_read ↦ over_read
          | out_of_fuel ↦ out_of_fuel
        ],
      )
    ]

-- Kernels
unfoldable pub check_kernel : Host → Relation → Checks
check_kernel h r s =
    let (s', current) = get_kernel_name h s in
    elim current [
      | none ↦ finish (fails system_not_found) s'
      | some current_name ↦ elim (get_value_str r) [
        | none ↦ finish (fails bad_value) s'
        | some req_name ↦
            if not (strcase_equal current_name req_name)
            then finish (kernel_name_verdict r req_name current_name) s'
            else check_kernel_version h r current_name req_name s'
      ]
    ]
