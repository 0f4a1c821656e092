-- ===== src/Vercmp/Order.antt =====
-- as_vercmp as a whole: opposite results for exchanged arguments, and when it returns.
use native.Mathlib.Nat.{add_comm}
use appstream.Base.{
  ℕ, suc, ◌+◌, ◌≡◌, refl, Bool, true, not, ◌&&◌, Option, none, some, [], ◌∷◌, arith, Bytes, length,
  deref, char_lt, str_equal, inl, inr, Bool-cases,
}
use appstream.Vercmp.Ends.{DashAt}
use appstream.Vercmp.Flip.{flip_outcome, cmp_part_flip, cmp_number_flip}
use appstream.Vercmp.Parse.{version_parse-DashAt, revision-DashAt}
use appstream.Vercmp.{
  Version, version_parse, epoch_text, revision_text, run_part, compare_revisions, compare_versions,
  compare_parsed, single_epochs, vercmp_strings, vercmp,
}

run_part_flip :
    (a b : Bytes) (ea eb : ℕ)
    → DashAt ea a
    → DashAt eb b
    → run_part b eb a ea ≡ flip_outcome (run_part a ea b eb)
unfolding run_part
run_part_flip a b ea eb p q =
    rw (add_comm (length b) (length a)) (cmp_part_flip (suc (length a + length b)) ea eb a b p q)

-- The end pointers of a parsed version.
abbrev HasEnds : Version → Type 0
HasEnds v = DashAt v.version_end v.version × DashAt v.revision_end (revision_text v.revision)

compare_revisions_flip :
    (a b : Version)
    → HasEnds a
    → HasEnds b
    → compare_revisions b a ≡ flip_outcome (compare_revisions a b)
unfolding compare_revisions
compare_revisions_flip a b p q =
    rw (run_part_flip (revision_text a.revision) (revision_text b.revision) _ _ p.1 q.1)
      (ground arith)

compare_versions_flip :
    (a b : Version)
    → HasEnds a
    → HasEnds b
    → compare_versions b a ≡ flip_outcome (compare_versions a b)
unfolding compare_versions
compare_versions_flip a b p q =
    ground (arith, run_part_flip a.version b.version _ _ p.0 q.0, compare_revisions_flip a b p q)

compare_parsed_flip :
    (f : Bool) (a b : Version)
    → HasEnds a
    → HasEnds b
    → compare_parsed f b a ≡ flip_outcome (compare_parsed f a b)
unfolding compare_parsed
compare_parsed_flip f a b p q = ground (
  arith,
  cmp_number_flip (epoch_text a.epoch) (epoch_text b.epoch),
  compare_versions_flip a b p q,
)

single_epochs_flip :
    (a b : Bytes)
    → (single_epochs b a ≡ single_epochs a b)
      × (single_epochs a b ≡ true → char_lt (deref b) (deref a) ≡ not (char_lt (deref a) (deref b)))
unfolding single_epochs
single_epochs_flip a b = ground arith

str_equal_comm : (a b : Bytes) → str_equal a b ≡ str_equal b a
str_equal_comm [] [] = refl
str_equal_comm [] (y ∷ b) = refl
str_equal_comm (x ∷ a) [] = refl
str_equal_comm (x ∷ a) (y ∷ b) = ground (arith, str_equal_comm a b)

parsed-HasEnds : (v : Bytes) → HasEnds (version_parse v)
parsed-HasEnds v = (version_parse-DashAt v, revision-DashAt v)

vercmp_strings_flip :
    (f : Bool) (a b : Bytes) → vercmp_strings f b a ≡ flip_outcome (vercmp_strings f a b)
unfolding vercmp_strings
vercmp_strings_flip f a b =
    let (same_test, opposite) = single_epochs_flip a b in
    let parsed =
      compare_parsed_flip f (version_parse a) (version_parse b) (parsed-HasEnds a)
        (parsed-HasEnds b) in
    elim (Bool-cases (not f && single_epochs a b)) [
      | inl e ↦
          let s : single_epochs a b ≡ true = ground arith in ground (arith, same_test, opposite s)
      | inr e ↦ ground (arith, same_test, str_equal_comm a b, parsed)
    ]

-- Exchanging the two versions gives the opposite result, for all strings and NULL, with and
-- without epochs; also where the comparison reads behind a string.
pub vercmp_flip :
    (ignore_epoch : Bool) (a b : Option Bytes)
    → vercmp ignore_epoch b a ≡ flip_outcome (vercmp ignore_epoch a b)
unfolding vercmp
vercmp_flip f none none = refl
vercmp_flip f none (some b) = refl
vercmp_flip f (some a) none = refl
vercmp_flip f (some a) (some b) = vercmp_strings_flip f a b
