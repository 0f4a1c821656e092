-- ===== src/Component/Relations/Results.antt =====
-- The results of checking a list of relations.
use mathlib.Core.Path.{subst}
use appstream.Base.{
  Bool, ◌&&◌, Option, some, List, [], ◌∷◌, if◌then◌else◌, ◌≡◌, refl, arith, Bool-cases, inl, inr,
}
use appstream.Relation.{Relation}
use appstream.Relation.Check.{Verdict, gives, fails, Pool}
use appstream.Relation.Satisfied.{is_satisfied}
use appstream.Relation.Satisfied.About.{IsAbout, is_satisfied-IsAbout}
use appstream.SystemInfo.{Host, SystemInfo}
use appstream.Vercmp.{Outcome, value, over_read, out_of_fuel}
use appstream.Component.Relations.{
  is_left_out, Reported, report, add_result, check_relations_internal,
}

-- The relations that are not passed over.
abbrev pub kept : Bool → List Relation → List (Option Relation)
kept is_template [] = []
kept is_template (r ∷ rs) =
    if is_template && is_left_out r.item_kind
    then kept is_template rs
    else some r ∷ kept is_template rs

abbrev pub relations_checked : List Reported → List (Option Relation)
relations_checked [] = []
relations_checked (r ∷ rs) = r.check.relation ∷ relations_checked rs

report-relation :
    (r : Relation) (v : Verdict) → IsAbout r (value v) → (report r v).check.relation ≡ some r
unfolding report
report-relation r (gives c) h = h
report-relation r (fails e) h = refl

-- What a finished loop gives.
abbrev Covers : List (Option Relation) → Outcome (List Reported) → Type 0
Covers ks (value out) = relations_checked out ≡ ks
Covers ks over_read = Unit
Covers ks out_of_fuel = Unit

add_result-Covers :
    (r : Relation) (v : Verdict) (ks : List (Option Relation)) (o : Outcome (List Reported))
    → (report r v).check.relation ≡ some r
    → Covers ks o
    → Covers (some r ∷ ks) (add_result (report r v) o)
add_result-Covers r v ks (value out) e c = ground (arith, e, c)
add_result-Covers r v ks over_read e c = _
add_result-Covers r v ks out_of_fuel e c = _

checked-Covers :
    (r : Relation) (ks : List (Option Relation)) (s1 : SystemInfo) (o : Outcome Verdict)
    (rest : SystemInfo × Outcome (List Reported))
    → IsAbout r o
    → Covers ks rest.1
    → Covers
        (some r ∷ ks)
        (elim o as (λ _. SystemInfo × Outcome (List Reported)) [
          | value v ↦ (rest.0, add_result (report r v) rest.1)
          | over_read ↦ (s1, over_read)
          | out_of_fuel ↦ (s1, out_of_fuel)
        ]).1
checked-Covers r ks s1 (value v) rest about c =
    add_result-Covers r v ks rest.1 (report-relation r v about) c
checked-Covers r ks s1 over_read rest about c = _
checked-Covers r ks s1 out_of_fuel rest about c = _

loop-Covers :
    (h : Host) (pool : Option Pool) (is_template : Bool) (rs : List Relation) (s : SystemInfo)
    → Covers (kept is_template rs) (check_relations_internal h pool is_template rs s).1
unfolding check_relations_internal
loop-Covers h pool is_template [] s = refl
loop-Covers h pool is_template (r ∷ rs) s =
    elim (Bool-cases (is_template && is_left_out r.item_kind)) [
      | inl skip ↦ rw skip (loop-Covers h pool is_template rs s)
      | inr keep ↦ rw keep (
          checked-Covers r (kept is_template rs) (is_satisfied h pool r s).0
            (is_satisfied h pool r s).1
            (check_relations_internal h pool is_template rs (is_satisfied h pool r s).0)
            (is_satisfied-IsAbout h pool r s)
            (loop-Covers h pool is_template rs (is_satisfied h pool r s).0))
    ]

-- A finished check of a list of relations has one result for each relation, in the order of the
-- list, also for those whose check failed; on a template the items that are passed over have none.
pub check_relations-kept :
    (h : Host) (pool : Option Pool) (is_template : Bool) (rs : List Relation) (s : SystemInfo)
    (out : List Reported)
    → (check_relations_internal h pool is_template rs s).1 ≡ value out
    → relations_checked out ≡ kept is_template rs
check_relations-kept h pool is_template rs s out e =
    subst (Covers (kept is_template rs)) e (loop-Covers h pool is_template rs s)
