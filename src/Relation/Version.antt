-- ===== src/Relation/Version.antt =====
-- as_relation_version_compare against as_vercmp_test_match.
use appstream.Base.{
  ◌≡◌, refl, ap, Option, none, some, Bytes, arith, Option-cases, inl, inr, true, false,
}
use appstream.Relation.Kinds.{Compare}
use appstream.Relation.{Relation, fulfils, version_compare_by, version_compare}
use appstream.Vercmp.{
  Sign, Outcome, value, over_read, out_of_fuel, sign_matches, vercmp, vercmp_simple,
  vercmp_test_match, outcome_map,
}
use appstream.Vercmp.Flip.{flip, flip_outcome}
use appstream.Vercmp.Order.{vercmp_flip}

fulfils-sign_matches : (c : Compare) (s : Sign) → fulfils c s ≡ sign_matches c (flip s)
unfolding fulfils sign_matches
fulfils-sign_matches c s = ground arith

outcome_flips :
    (c : Compare) (own : Bytes) (version : Option Bytes)
    → outcome_map (fulfils c) (vercmp false (some own) version)
      ≡ outcome_map (sign_matches c) (vercmp false version (some own))
outcome_flips c own version =
    rw (vercmp_flip false (some own) version) (go (vercmp false (some own) version))
  where
    go :
        (o : Outcome Sign)
        → outcome_map (fulfils c) o ≡ outcome_map (sign_matches c) (flip_outcome o)
    go (value s) = ap value (fulfils-sign_matches c s)
    go over_read = refl
    go out_of_fuel = refl

by_compare :
    (c : Compare) (own : Bytes) (version : Option Bytes)
    → version_compare_by c (some own) version ≡ vercmp_test_match version c (some own) false
unfolding vercmp_test_match vercmp_simple
by_compare Compare.unknown own version = refl
by_compare Compare.eq own version = outcome_flips Compare.eq own version
by_compare Compare.ne own version = outcome_flips Compare.ne own version
by_compare Compare.lt own version = outcome_flips Compare.lt own version
by_compare Compare.gt own version = outcome_flips Compare.gt own version
by_compare Compare.le own version = outcome_flips Compare.le own version
by_compare Compare.ge own version = outcome_flips Compare.ge own version

-- `as_relation_version_compare` says of a version what `as_vercmp_test_match` says of that version
-- on the left and the relation's on the right, epochs included; a relation with no version accepts
-- every version.
pub version_compare-test_match :
    (r : Relation) (version : Option Bytes)
    → version_compare r version ≡ elim r.version [
      | none ↦ value true
      | some own ↦ vercmp_test_match version r.compare (some own) false
    ]
unfolding version_compare vercmp_test_match vercmp_simple
version_compare-test_match r version = elim (Option-cases r.version) [
  | inl e ↦ ground arith
  | inr (own, e) ↦ rw (e, version_compare) (by_compare r.compare own version)
]
