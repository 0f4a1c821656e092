-- ===== src/Relation/Check.antt =====
-- src/as-relation.c, as_relation_is_satisfied: what a check of a relation gives, and the checks of
-- components and modaliases.
use Prim.Native.String.{String}
use appstream.Base.{
  ℕ, ◌-◌, Bool, false, not, Option, none, some, List, [], ◌∷◌, ltb, if◌then◌else◌, Bytes, ℤ, pos,
  negsuc, ltb_ℤ, leb_ℤ, eqb_ℤ,
}
use appstream.Relation.Kinds.{RelationKind, Compare}
use appstream.Relation.{Relation, get_value_str}
use appstream.SystemInfo.{Host, SystemInfo, has_device_matching_modalias}
use appstream.Vercmp.{Outcome, value}

-- `AsRelationStatus`
pub data Status : Type 0 where
  unknown error not_satisfied satisfied : Status

-- The domain and code of a `GError`; `system` is one that the input scan hands on.
pub data Error : Type 0 where
  failed bad_value not_implemented system_not_found system : Error

-- The arguments of a message: a string, GiB of a number of MiB, pixels, or the text
-- about a control with the device name in it.
pub data Arg : Type 0 where
  str : Option Bytes → Arg
  gib : ℕ → Arg
  px : ℕ → Arg
  control : Option (String × Option String) → Arg

-- A translatable format and its arguments.
pub record Message : Type 0 where
  pub format : String
  pub args : List Arg

-- `AsRelationCheckResult`
pub record Checked : Type 0 where
  pub relation : Option Relation
  pub status : Status
  pub message : Option Message

pub data Verdict : Type 0 where
  gives : Checked → Verdict
  fails : Error → Verdict

-- A component pool: the names of the components with an id.
abbrev pub Pool : Type 0
Pool = Bytes → List (Option Bytes)

abbrev pub say : String → List Arg → Option Message
say f as_args = some (record { format = f; args = as_args })

abbrev pub settled : Relation → Status → Option Message → Verdict
settled r s m = gives (record { relation = some r; status = s; message = m })

-- The three wordings of a message; the last is that of an `else`.
abbrev pub worded {ℓ} : {A : Type ℓ} → RelationKind → A → A → A → A
worded RelationKind.requires a b c = a
worded RelationKind.recommends a b c = b
worded _ a b c = c

-- A `gulong` as the `glong` parameter of `as_compare_int_match`.
abbrev pub to_glong : ℕ → ℤ
to_glong n = if ltb n 0x8000_0000_0000_0000 then pos n else negsuc (0xffff_ffff_ffff_ffff - n)

-- A `gint` as a `gulong`.
abbrev pub to_gulong : ℤ → ℕ
to_gulong (pos n) = n
to_gulong (negsuc n) = 0xffff_ffff_ffff_ffff - n

-- `as_compare_int_match`; the test of `ne` reads the first number alone.
unfoldable pub compare_int_match : ℤ → Compare → ℤ → Bool
compare_int_match a Compare.unknown b = false
compare_int_match a Compare.eq b = eqb_ℤ a b
compare_int_match a Compare.ne b = not (eqb_ℤ a (pos 0))
compare_int_match a Compare.lt b = ltb_ℤ a b
compare_int_match a Compare.gt b = ltb_ℤ b a
compare_int_match a Compare.le b = leb_ℤ a b
compare_int_match a Compare.ge b = leb_ℤ b a

abbrev pub Checks : Type 0
Checks = SystemInfo → SystemInfo × Outcome Verdict

abbrev pub finish : Verdict → Checks
finish v s = (s, value v)

-- Components
unfoldable pub check_id : Option Pool → Relation → Checks
check_id none r = finish (fails failed)
check_id (some pool) r = elim (get_value_str r) [
  | none ↦ finish (fails bad_value)
  | some cid ↦ elim (pool cid) [
    | name ∷ names ↦ finish (settled r satisfied (say "Software '%s' was found" (str name ∷ [])))
    | [] ↦ finish (
        settled r not_satisfied (elim r.kind [
          | RelationKind.requires ↦
              say "Required software component '%s' is missing." (str (some cid) ∷ [])
          | RelationKind.recommends ↦
              say "Recommended software component '%s' is missing." (str (some cid) ∷ [])
          | RelationKind.supports ↦
              say "Found supported software component '%s'." (str (some cid) ∷ [])
          | RelationKind.unknown ↦ none
        ]))
  ]
]

-- Modaliases
unfoldable pub check_modalias : Host → Relation → Checks
check_modalias h r s = elim (get_value_str r) [
  | none ↦ finish (fails bad_value) s
  | some modalias ↦
      let device =
        str (some (elim (h.device_name modalias) [ none ↦ modalias | some d ↦ d ])) ∷ [] in
      let (s', hit) = has_device_matching_modalias h modalias s in
      if hit
      then finish
          (settled r satisfied
            (say "Found hardware that is supported by this software: '%s'" device))
          s'
      else finish
          (settled r not_satisfied (
            worded r.kind
              (say "Required hardware for this software was not found on this system: '%s'" device)
              (say "Recommended hardware for this software was not found on this system: '%s'"
                device)
              (say "This software supports hardware not present in this system: '%s'" device)))
          s'
]
