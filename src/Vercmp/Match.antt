-- ===== src/Vercmp/Match.antt =====
-- as_vercmp_test_match: the tests are those of one order.
use appstream.Base.{◌≡◌, ◌≢◌, refl, Bool, not, Option, Bytes, arith}
use appstream.Relation.Kinds.{Compare}
use appstream.Vercmp.{Outcome, value, over_read, out_of_fuel, sign_matches, vercmp_test_match}
use appstream.Vercmp.Order.{vercmp_flip}

-- The comparison with the sides exchanged.
abbrev converse : Compare → Compare
converse Compare.unknown = Compare.unknown
converse Compare.eq = Compare.eq
converse Compare.ne = Compare.ne
converse Compare.lt = Compare.gt
converse Compare.gt = Compare.lt
converse Compare.le = Compare.ge
converse Compare.ge = Compare.le

-- The comparison that holds exactly where `c` does not.
abbrev negation : Compare → Compare
negation Compare.unknown = Compare.unknown
negation Compare.eq = Compare.ne
negation Compare.ne = Compare.eq
negation Compare.lt = Compare.ge
negation Compare.gt = Compare.le
negation Compare.le = Compare.gt
negation Compare.ge = Compare.lt

abbrev outcome_not : Outcome Bool → Outcome Bool
outcome_not (value r) = value (not r)
outcome_not over_read = over_read
outcome_not out_of_fuel = out_of_fuel

-- A test and the test of the converse comparison on the exchanged versions have the same result.
test_match-converse :
    (a b : Option Bytes) (c : Compare) (ignore_epoch : Bool)
    → vercmp_test_match b (converse c) a ignore_epoch ≡ vercmp_test_match a c b ignore_epoch
unfolding vercmp_test_match sign_matches
test_match-converse a b Compare.unknown f = refl
test_match-converse a b _ f = ground (arith, vercmp_flip f a b)

-- A test of a known comparison returns the opposite of the test of its negation.
test_match-negation :
    (a b : Option Bytes) (c : Compare) (ignore_epoch : Bool)
    → c ≢ Compare.unknown
    → vercmp_test_match a (negation c) b ignore_epoch
      ≡ outcome_not (vercmp_test_match a c b ignore_epoch)
unfolding vercmp_test_match sign_matches
test_match-negation a b Compare.unknown f h = absurd (h refl)
test_match-negation a b _ f h = ground arith
