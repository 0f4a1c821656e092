-- ===== src/Validator/Success.antt =====
-- src/as-validator.c: when the validation succeeds, and what overrides can change of that.
use appstream.Base.{Bool, true, false, Option, List, [], ◌∷◌, Bytes, ◌≡◌, ◌↔◌, refl, arith, All}
use appstream.Validator.Issues.{Severity, Issue, Printf, TagData}
use appstream.Validator.{
  Validator, Node, Format, tag_data_for, insert_issue, register_issue, add_issue, make_issue,
  is_fatal, check_issues, check_success,
}
use appstream.Validator.Override.{
  is_in, demotion_allowlist, add_overrides, IsFailing, add_overrides-IsFailing,
}

-- The issue lets the validation pass.
abbrev IsHarmless : Bool → (Bytes × Issue) → Type 0
IsHarmless strict e = is_fatal strict e.1.severity ≡ false

check_issues-All :
    (strict : Bool) (es : List (Bytes × Issue))
    → (check_issues strict es ≡ true) ↔ All (IsHarmless strict) es
unfolding check_issues
check_issues-All strict [] = ground arith
check_issues-All strict (e ∷ es) = ground (arith, check_issues-All strict es)

check_issues-insert :
    (strict : Bool) (k : Bytes) (i : Issue) (es : List (Bytes × Issue))
    → is_fatal strict i.severity ≡ true
    → check_issues strict (insert_issue k i es).0 ≡ false
unfolding check_issues insert_issue
check_issues-insert strict k i [] e = ground (arith, e)
check_issues-insert strict k i (d ∷ es) e = ground (arith, e, check_issues-insert strict k i es e)

fails_strict : (strict : Bool) (s : Severity) → is_fatal false s ≡ true → is_fatal strict s ≡ true
unfolding is_fatal
fails_strict true Severity.unknown e = refl
fails_strict true Severity.pedantic e = e
fails_strict true Severity.info e = refl
fails_strict true Severity.warning e = refl
fails_strict true Severity.error e = refl
fails_strict false s e = e

add_issue-is_fatal :
    (p : Printf) (tags : List TagData) (n : Option Node) (tag : Bytes) (format : Option Format)
    → (v : Validator) → is_fatal v.strict (tag_data_for tags tag).severity ≡ true
    → check_success (add_issue p tags n tag format v) ≡ false
unfolding add_issue register_issue check_success make_issue
add_issue-is_fatal p tags n tag format v e = check_issues-insert v.strict _ _ v.issues e

-- Whatever overrides are made, an issue with a registered tag whose severity is a warning or an error
-- makes the validation fail, strict or not, unless the tag is one of the four on the list.
pub add_overrides-check_success :
    (p : Printf) (tags : List TagData) (os : List (Bytes × Option Severity)) (n : Option Node)
    → (tag : Bytes) (format : Option Format) (v : Validator) → is_in demotion_allowlist tag ≡ false
    → IsFailing tags tag
    → check_success (add_issue p (add_overrides os tags) n tag format v) ≡ false
unfolding tag_data_for
add_overrides-check_success p tags os n tag format v apart f =
    let g = add_overrides-IsFailing os tag tags apart f in
    add_issue-is_fatal p (add_overrides os tags) n tag format v
      (rw (g.found, tag_data_for) (fails_strict v.strict g.row.severity g.failing))
