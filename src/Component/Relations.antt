-- ===== src/Component/Relations.antt =====
-- src/as-component.c: the relations of a component, their checks on a system, and the score that the
-- checks give together.
pub mod Results
pub mod Templates
mod Tests
use appstream.Base.{
  ℕ, Bool, true, false, not, ◌&&◌, ◌||◌, Option, none, some, List, [], ◌∷◌, ◌++◌, if◌then◌else◌, ℤ,
  pos,
}
use appstream.Relation.Kinds.{RelationKind, ItemKind, Compare, ControlKind, DisplaySideKind}
use appstream.Relation.{Relation, new, int32, set_value_px}
use appstream.Relation.Check.{Status, Error, Checked, Verdict, gives, fails, Pool}
use appstream.Relation.Satisfied.{is_satisfied}
use appstream.Relation.Score.{get_compatibility_score}
use appstream.SystemInfo.{Host, SystemInfo, control_index}
use appstream.Vercmp.{Outcome, value, over_read, out_of_fuel}

-- The three lists of `AsComponentPrivate`.
pub record RelationLists : Type 0 where
  pub requires : List Relation
  pub recommends : List Relation
  pub supports : List Relation

abbrev pub no_relations : RelationLists
no_relations = record { requires = []; recommends = []; supports = [] }

-- `as_component_add_relation`
pub add_relation : Relation → RelationLists → RelationLists
add_relation r c = elim r.kind [
  | RelationKind.requires ↦ record c { requires = c.requires ++ r ∷ [] }
  | RelationKind.recommends ↦ record c { recommends = c.recommends ++ r ∷ [] }
  | RelationKind.supports ↦ record c { supports = c.supports ++ r ∷ [] }
  | RelationKind.unknown ↦ c
]

-- The display that a component without relations is taken to require.
pub implicit_display : Relation
implicit_display =
    record (set_value_px (pos 768) (record new {
      kind = RelationKind.requires;
      item_kind = ItemKind.display_length;
      display_side_kind = DisplaySideKind.shortest;
    })) { compare = Compare.ge }

-- `as_relation_set_value_control_kind` stores the number of the kind, whatever the item.
pub set_value_control_kind : ControlKind → Relation → Relation
set_value_control_kind k r = record r { value = some (int32 (pos (control_index k))) }

-- A control that it is taken to require.
pub implicit_control : ControlKind → Relation
implicit_control k =
    set_value_control_kind k
      (record new { kind = RelationKind.requires; item_kind = ItemKind.control })

abbrev is_empty {ℓ} : {A : Type ℓ} → List A → Bool
is_empty [] = true
is_empty (x ∷ xs) = false

pub has_relations : RelationLists → Bool
has_relations c =
    not (is_empty c.requires) || not (is_empty c.recommends) || not (is_empty c.supports)

-- `as_component_make_implicit_relations_explicit`
pub make_implicit_relations_explicit : RelationLists → RelationLists
make_implicit_relations_explicit c =
    if has_relations c
    then c
    else add_relation (implicit_control ControlKind.pointing)
        (add_relation (implicit_control ControlKind.keyboard) (add_relation implicit_display c))

-- The items that are passed over on a template.
pub is_left_out : ItemKind → Bool
is_left_out ItemKind.id = true
is_left_out ItemKind.modalias = true
is_left_out ItemKind.kernel = true
is_left_out ItemKind.firmware = true
is_left_out ItemKind.hardware = true
is_left_out ItemKind.internet = true
is_left_out _ = false

-- A check result with the error code that it carries.
pub record Reported : Type 0 where
  pub check : Checked
  pub error_code : Option Error

-- The result that goes into the array; of a failed check the text of the error is not kept.
pub report : Relation → Verdict → Reported
report r (gives c) = record { check = c; error_code = none }
report r (fails e) = record {
  check = record { relation = some r; status = Status.error; message = none };
  error_code = some e;
}

abbrev pub Results : Type 0
Results = SystemInfo → SystemInfo × Outcome (List Reported)

abbrev pub add_result : Reported → Outcome (List Reported) → Outcome (List Reported)
add_result r (value rs) = value (r ∷ rs)
add_result r over_read = over_read
add_result r out_of_fuel = out_of_fuel

-- The loop of `as_component_check_relations_internal`, which hands the system information on.
pub check_relations_internal : Host → Option Pool → Bool → List Relation → Results
check_relations_internal h pool is_template [] s = (s, value [])
check_relations_internal h pool is_template (r ∷ rs) s =
    let left_out = check_relations_internal h pool is_template rs s in
    let checked = is_satisfied h pool r s in
    let rest = check_relations_internal h pool is_template rs checked.0 in
    if is_template && is_left_out r.item_kind then left_out else elim checked.1 [
      | value v ↦ (rest.0, add_result (report r v) rest.1)
      | over_read ↦ (checked.0, over_read)
      | out_of_fuel ↦ (checked.0, out_of_fuel)
    ]

relations_of : RelationKind → RelationLists → List Relation
relations_of RelationKind.requires c = c.requires
relations_of RelationKind.recommends c = c.recommends
relations_of RelationKind.supports c = c.supports
relations_of RelationKind.unknown c = []

-- `as_component_check_relations`
check_relations :
    Host
    → Option Pool
    → RelationKind
    → RelationLists
    → SystemInfo
    → RelationLists × (SystemInfo × Outcome (List Reported))
check_relations h pool k c s =
    let c' = make_implicit_relations_explicit c in
    (c', check_relations_internal h pool false (relations_of k c') s)

-- A further loop that adds to the same array.
pub check_more :
    Host
    → Bool
    → List Relation
    → SystemInfo × Outcome (List Reported)
    → SystemInfo × Outcome (List Reported)
check_more h is_template rs (s, value done) =
    let more = check_relations_internal h none is_template rs s in
    (
      more.0,
      elim more.1 [
        | value found ↦ value (done ++ found)
        | over_read ↦ over_read
        | out_of_fuel ↦ out_of_fuel
      ],
    )
check_more h is_template rs (s, over_read) = (s, over_read)
check_more h is_template rs (s, out_of_fuel) = (s, out_of_fuel)

pub check_all : Host → Bool → RelationLists → Results
check_all h is_template c s = check_more h is_template c.supports (
    check_more h is_template c.recommends
      (check_relations_internal h none is_template c.requires s))

pub checks_of : List Reported → List Checked
checks_of [] = []
checks_of (r ∷ rs) = r.check ∷ checks_of rs

-- `as_component_get_system_compatibility_score`: the score, and the results for the caller.
pub get_system_compatibility_score :
    Host → Bool → RelationLists → SystemInfo → SystemInfo × Outcome (ℤ × List Reported)
get_system_compatibility_score h is_template c s =
    let (s', results) = check_all h is_template (make_implicit_relations_explicit c) s in
    (
      s',
      elim results [
        | value rs ↦ value (get_compatibility_score (checks_of rs), rs)
        | over_read ↦ over_read
        | out_of_fuel ↦ out_of_fuel
      ],
    )
