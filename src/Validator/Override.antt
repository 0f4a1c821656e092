-- ===== src/Validator/Override.antt =====
-- src/as-validator.c: as_validator_add_override, which changes the severity of a tag.
use appstream.Base.{
  ◌∙◌, Option-cases, inl, inr, Bool, true, false, not, ◌&&◌, ◌||◌, Option, none, some, List, [],
  ◌∷◌, if◌then◌else◌, Bytes, codes, str_equal, str_equal_iff, ◌≡◌, ◌≢◌, refl, arith, Option-cases,
  inl, inr,
}
use appstream.Validator.Issues.{Severity, TagData}
use appstream.Validator.{find_tag, is_fatal}

-- The three messages of `AS_VALIDATOR_ERROR_INVALID_OVERRIDE`.
pub data InvalidOverride : Type 0 where
  severity_invalid : InvalidOverride
  tag_not_recognized : InvalidOverride
  downgrade_not_allowed : InvalidOverride

abbrev pub demotion_allowlist : List Bytes
demotion_allowlist =
    codes "release-time-missing"
    ∷ codes "cid-desktopapp-is-not-rdns"
    ∷ codes "tag-empty"
    ∷ codes "releases-not-in-order"
    ∷ []

unfoldable pub is_in : List Bytes → Bytes → Bool
is_in [] tag = false
is_in (t ∷ ts) tag = str_equal t tag || is_in ts tag

-- `tag_data->severity = severity_override`, on the row that the lookup gives.
pub set_severity : Bytes → Severity → List TagData → List TagData
set_severity tag s [] = []
set_severity tag s (d ∷ ds) =
    let rest = set_severity tag s ds in
    elim (find_tag ds tag) [
      | some e ↦ d ∷ rest
      | none ↦ if str_equal d.tag tag then record d { severity = s } ∷ ds else d ∷ rest
    ]

-- The end of `as_validator_add_override`, for a severity that is one.
unfoldable pub apply_override :
    Bytes → Severity → List TagData → List TagData × Option InvalidOverride
apply_override tag s tags = elim (find_tag tags tag) [
  | none ↦ (tags, some InvalidOverride.tag_not_recognized)
  | some d ↦
      if is_fatal false d.severity && not (is_fatal false s) && not (is_in demotion_allowlist tag)
      then (tags, some InvalidOverride.downgrade_not_allowed)
      else (set_severity tag s tags, none)
]

-- `as_validator_add_override`, with `none` for a number from `AS_ISSUE_SEVERITY_LAST` on. Its result
-- is the list of tags, which every validator reads, and what went wrong.
unfoldable pub add_override :
    Bytes → Option Severity → List TagData → List TagData × Option InvalidOverride
add_override tag none tags = (tags, some InvalidOverride.severity_invalid)
add_override tag (some Severity.unknown) tags = (tags, some InvalidOverride.severity_invalid)
add_override tag (some Severity.pedantic) tags = apply_override tag Severity.pedantic tags
add_override tag (some Severity.info) tags = apply_override tag Severity.info tags
add_override tag (some Severity.warning) tags = apply_override tag Severity.warning tags
add_override tag (some Severity.error) tags = apply_override tag Severity.error tags

-- Any number of overrides, each with its result left aside.
pub add_overrides : List (Bytes × Option Severity) → List TagData → List TagData
add_overrides [] tags = tags
add_overrides (o ∷ os) tags = add_overrides os (add_override o.0 o.1 tags).0

find_tag-set_severity :
    (tag other : Bytes) (s : Severity) (ds : List TagData)
    → find_tag (set_severity tag s ds) other ≡ elim (find_tag ds other) [
      | none ↦ none
      | some d ↦ some (if str_equal tag other then record d { severity = s } else d)
    ]
unfolding find_tag set_severity
find_tag-set_severity tag other s [] = refl
find_tag-set_severity tag other s (d ∷ ds) = ground (
  arith,
  find_tag-set_severity tag other s ds,
  str_equal_iff d.tag tag,
  str_equal_iff d.tag other,
  str_equal_iff tag other,
)

-- A registered tag with a severity that makes the validation fail.
pub record IsFailing (tags : List TagData) (tag : Bytes) : Type 0 where
  pub row : TagData
  pub found : find_tag tags tag ≡ some row
  pub failing : is_fatal false row.severity ≡ true

set_severity-IsFailing :
    (tag other : Bytes) (s : Severity) (tags : List TagData)
    → (str_equal tag other && not (is_fatal false s)) ≡ false
    → IsFailing tags other
    → IsFailing (set_severity tag s tags) other
set_severity-IsFailing tag other s tags kept f = record {
  row = if str_equal tag other then record f.row { severity = s } else f.row;
  found = find_tag-set_severity tag other s tags ∙ rw f.found refl;
  failing = ground (arith, f.failing, kept);
}

kept_failing :
    (tag other : Bytes) (s : Severity) (tags : List TagData) (d : TagData)
    → find_tag tags tag ≡ some d
    → (is_fatal false d.severity && not (is_fatal false s) && not (is_in demotion_allowlist tag))
      ≡ false
    → is_in demotion_allowlist other ≡ false
    → IsFailing tags other
    → (str_equal tag other && not (is_fatal false s)) ≡ false
kept_failing tag other s tags d e refused apart f =
    ground (arith, e, refused, apart, f.found, f.failing, str_equal_iff tag other)

if-IsFailing :
    (b : Bool) (other : Bytes) (x y : List TagData × Option InvalidOverride)
    → IsFailing x.0 other
    → (b ≡ false → IsFailing y.0 other)
    → IsFailing (if b then x else y).0 other
if-IsFailing true other x y f fine = f
if-IsFailing false other x y f fine = fine refl

apply_override-IsFailing :
    (tag other : Bytes) (s : Severity) (tags : List TagData)
    → is_in demotion_allowlist other ≡ false
    → IsFailing tags other
    → IsFailing (apply_override tag s tags).0 other
unfolding apply_override
apply_override-IsFailing tag other s tags apart f = elim (Option-cases (find_tag tags tag)) [
  | inl e ↦ rw (e, apply_override) f
  | inr (d, e) ↦
      rw (e, apply_override)
        (if-IsFailing _ other _ _ f (λ fine.
          set_severity-IsFailing tag other s tags (kept_failing tag other s tags d e fine apart f)
            f))
]

add_override-IsFailing :
    (tag other : Bytes) (o : Option Severity) (tags : List TagData)
    → is_in demotion_allowlist other ≡ false
    → IsFailing tags other
    → IsFailing (add_override tag o tags).0 other
unfolding add_override
add_override-IsFailing tag other none tags apart f = f
add_override-IsFailing tag other (some Severity.unknown) tags apart f = f
add_override-IsFailing tag other (some Severity.pedantic) tags apart f =
    apply_override-IsFailing tag other Severity.pedantic tags apart f
add_override-IsFailing tag other (some Severity.info) tags apart f =
    apply_override-IsFailing tag other Severity.info tags apart f
add_override-IsFailing tag other (some Severity.warning) tags apart f =
    apply_override-IsFailing tag other Severity.warning tags apart f
add_override-IsFailing tag other (some Severity.error) tags apart f =
    apply_override-IsFailing tag other Severity.error tags apart f

pub add_overrides-IsFailing :
    (os : List (Bytes × Option Severity)) (other : Bytes) (tags : List TagData)
    → is_in demotion_allowlist other ≡ false
    → IsFailing tags other
    → IsFailing (add_overrides os tags) other
unfolding add_overrides
add_overrides-IsFailing [] other tags apart f = f
add_overrides-IsFailing (o ∷ os) other tags apart f =
    add_overrides-IsFailing os other (add_override o.0 o.1 tags).0 apart
      (add_override-IsFailing o.0 other o.1 tags apart f)

apply_override-outcome :
    (tag other : Bytes) (s : Severity) (tags : List TagData)
    → ((apply_override tag s tags).1 ≢ none → (apply_override tag s tags).0 ≡ tags)
      × ((apply_override tag s tags).1 ≡ none
          → (find_tag tags tag ≢ none)
            × (find_tag (apply_override tag s tags).0 other ≡ elim (find_tag tags other) [
              | none ↦ none
              | some d ↦ some (if str_equal tag other then record d { severity = s } else d)
            ]))
unfolding apply_override
apply_override-outcome tag other s tags = ground (arith, find_tag-set_severity tag other s tags)

-- An override with an error leaves every tag as it was. One without an error is of a registered tag;
-- that tag then has the given severity, which is not the unknown one, and every other tag is as it was.
add_override-outcome :
    (tag other : Bytes) (s : Severity) (tags : List TagData)
    → ((add_override tag (some s) tags).1 ≢ none → (add_override tag (some s) tags).0 ≡ tags)
      × ((add_override tag (some s) tags).1 ≡ none
          → (s ≢ Severity.unknown)
            × (find_tag tags tag ≢ none)
            × (find_tag (add_override tag (some s) tags).0 other ≡ elim (find_tag tags other) [
              | none ↦ none
              | some d ↦ some (if str_equal tag other then record d { severity = s } else d)
            ]))
unfolding add_override
add_override-outcome tag other Severity.unknown tags = (λ _. refl, λ e. absurd (cc))
add_override-outcome tag other Severity.pedantic tags =
    let (same, done) = apply_override-outcome tag other Severity.pedantic tags in
    (same, λ e. (λ u. cc, (done e).0, (done e).1))
add_override-outcome tag other Severity.info tags =
    let (same, done) = apply_override-outcome tag other Severity.info tags in
    (same, λ e. (λ u. cc, (done e).0, (done e).1))
add_override-outcome tag other Severity.warning tags =
    let (same, done) = apply_override-outcome tag other Severity.warning tags in
    (same, λ e. (λ u. cc, (done e).0, (done e).1))
add_override-outcome tag other Severity.error tags =
    let (same, done) = apply_override-outcome tag other Severity.error tags in
    (same, λ e. (λ u. cc, (done e).0, (done e).1))
