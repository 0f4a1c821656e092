-- ===== src/Vercmp/Total.antt =====
-- When as_vercmp returns.
use appstream.Base.{
  ℕ, suc, ◌+◌, ◌≤◌, ◌≡◌, ◌≢◌, refl, Bool, true, false, not, ◌&&◌, Option, none, some, arith, Bytes,
  length, str_equal, inl, inr, Bool-cases, ap, ◌⊎◌,
}
use appstream.Vercmp.Ends.{DashAt}
use appstream.Vercmp.Loop.{cmp_part-ne-out_of_fuel, cmp_part_total}
use appstream.Vercmp.Parse.{version_parse-DashAt, revision-DashAt}
use appstream.Relation.Kinds.{Compare}
use appstream.Vercmp.{
  vercmp_test_match, Sign, less, same, more, Outcome, value, over_read, out_of_fuel, outcome_map,
  sign_matches, cmp_number, version_parse, epoch_text, revision_text, pointers_differ, run_part,
  compare_revisions, compare_versions, compare_parsed, single_epochs, vercmp_strings, vercmp,
}

abbrev Returns : Outcome Sign → Type 0
Returns o = (r : Sign) × (o ≡ value r)

-- The last dash of a version does not stand ahead of its first colon.
abbrev pub ColonFirst : Bytes → Type 0
ColonFirst v = (version_parse v).version_end ≤ length (version_parse v).version

run_part-ne-out_of_fuel :
    (a b : Bytes) (ea eb : ℕ) → DashAt ea a → DashAt eb b → run_part a ea b eb ≢ out_of_fuel
unfolding run_part
run_part-ne-out_of_fuel a b ea eb p q =
    cmp_part-ne-out_of_fuel (suc (length a + length b)) ea eb a b p q (omega arith)

run_part_total :
    (a b : Bytes) (ea eb : ℕ)
    → DashAt ea a
    → DashAt eb b
    → ea ≤ length a
    → eb ≤ length b
    → Returns (run_part a ea b eb)
unfolding run_part
run_part_total a b ea eb p q =
    cmp_part_total (suc (length a + length b)) ea eb a b p q (omega arith)

compare_revisions_total :
    (a b : Bytes) → Returns (compare_revisions (version_parse a) (version_parse b))
unfolding compare_revisions version_parse
compare_revisions_total a b =
    let v = version_parse a in
    let w = version_parse b in
    let (r, e) =
      run_part_total (revision_text v.revision) (revision_text w.revision) 0 0 (revision-DashAt a)
        (revision-DashAt b) (omega arith) (omega arith) in
    elim (Bool-cases (pointers_differ v.revision w.revision)) [
      | inl d ↦ (r, ground arith)
      | inr d ↦ (same, ground arith)
    ]

compare_versions_total :
    (a b : Bytes)
    → ColonFirst a
    → ColonFirst b
    → Returns (compare_versions (version_parse a) (version_parse b))
unfolding compare_versions
compare_versions_total a b p q =
    let v = version_parse a in
    let w = version_parse b in
    let (r, e) =
      run_part_total v.version w.version v.version_end w.version_end (version_parse-DashAt a)
        (version_parse-DashAt b) p q in
    let (r', e') = compare_revisions_total a b in go r r' e e'
  where
    go :
        (r r' : Sign)
        → run_part
            (version_parse a).version
            (version_parse a).version_end
            (version_parse b).version
            (version_parse b).version_end
          ≡ value r
        → compare_revisions (version_parse a) (version_parse b) ≡ value r'
        → Returns (compare_versions (version_parse a) (version_parse b))
    go less r' e e' = (less, ground arith)
    go more r' e e' = (more, ground arith)
    go same r' e e' = (r', ground arith)

compare_parsed_total :
    (f : Bool) (a b : Bytes)
    → ColonFirst a
    → ColonFirst b
    → Returns (compare_parsed f (version_parse a) (version_parse b))
unfolding compare_parsed
compare_parsed_total f a b p q =
    let v = version_parse a in
    let w = version_parse b in
    go f (pointers_differ v.epoch w.epoch)
      (cmp_number (epoch_text v.epoch) (epoch_text w.epoch)).res refl refl
      (compare_versions_total a b p q)
  where
    go :
        (f d : Bool) (s : Sign)
        → pointers_differ (version_parse a).epoch (version_parse b).epoch ≡ d
        → (cmp_number (epoch_text (version_parse a).epoch) (epoch_text (version_parse b).epoch)).res
          ≡ s
        → Returns (compare_versions (version_parse a) (version_parse b))
        → Returns (compare_parsed f (version_parse a) (version_parse b))
    go true d s i j (r, e) = (r, ground arith)
    go false false s i j (r, e) = (r, ground arith)
    go false true same i j (r, e) = (r, ground arith)
    go false true less i j (r, e) = (less, ground arith)
    go false true more i j (r, e) = (more, ground arith)

vercmp_strings_total :
    (f : Bool) (a b : Bytes) → ColonFirst a → ColonFirst b → Returns (vercmp_strings f a b)
unfolding vercmp_strings
vercmp_strings_total f a b p q =
    let (r, e) = compare_parsed_total f a b p q in
    elim (Bool-cases (not f && single_epochs a b)) [
      | inl s ↦ rw s (_, refl)
      | inr s ↦ elim (Bool-cases (str_equal a b)) [
        | inl t ↦ (same, ground arith)
        | inr t ↦ (r, ground arith)
      ]
    ]

abbrev pub ColonFirst? : Option Bytes → Type 0
ColonFirst? none = Unit
ColonFirst? (some v) = ColonFirst v

-- `as_vercmp` returns for all versions in which the last dash does not stand ahead of the first
-- colon, NULL included: its loops end, and it reads nothing behind the terminating NULs.
pub vercmp_total :
    (ignore_epoch : Bool) (a b : Option Bytes)
    → ColonFirst? a
    → ColonFirst? b
    → (r : Sign) × (vercmp ignore_epoch a b ≡ value r)
unfolding vercmp
vercmp_total f none none p q = (same, refl)
vercmp_total f none (some b) p q = (less, refl)
vercmp_total f (some a) none p q = (more, refl)
vercmp_total f (some a) (some b) p q = vercmp_strings_total f a b p q

-- The fuel of the model is never used up.
vercmp-ne-out_of_fuel :
    (ignore_epoch : Bool) (a b : Option Bytes) → vercmp ignore_epoch a b ≢ out_of_fuel
unfolding vercmp vercmp_strings compare_parsed compare_versions compare_revisions
vercmp-ne-out_of_fuel f none none = cc
vercmp-ne-out_of_fuel f none (some b) = cc
vercmp-ne-out_of_fuel f (some a) none = cc
vercmp-ne-out_of_fuel f (some a) (some b) =
    let v = version_parse a in
    let w = version_parse b in
    ground (
      arith,
      run_part-ne-out_of_fuel v.version w.version v.version_end w.version_end
          (version_parse-DashAt a) (version_parse-DashAt b),
      run_part-ne-out_of_fuel (revision_text v.revision) (revision_text w.revision) v.revision_end
          w.revision_end (revision-DashAt a) (revision-DashAt b),
    )

-- How a comparison of two versions ends: with a value, or behind a terminating NUL, and that only where
-- one of the versions has its last dash ahead of its first colon.
abbrev pub Ends {ℓ} : {A : Type ℓ} → Option Bytes → Option Bytes → Outcome A → Type ℓ
Ends {A = A} a b o =
    ((r : A) × (o ≡ value r)) ⊎ ((o ≡ over_read) × ¬ (ColonFirst? a × ColonFirst? b))

-- `as_vercmp` stays within its strings and returns, or walks behind a terminating NUL, for all versions
-- and NULL; the latter happens only if in one of the two versions the last dash stands ahead of the
-- first colon. The outer loop of `cmp_part` never uses up the fuel of the model, which is one unit more
-- than both parts have bytes together.
pub vercmp-Ends : (ignore_epoch : Bool) (a b : Option Bytes) → Ends a b (vercmp ignore_epoch a b)
vercmp-Ends f a b = go (vercmp f a b) refl
  where
    go : (o : Outcome Sign) → vercmp f a b ≡ o → Ends a b o
    go (value r) e = inl (r, refl)
    go over_read e =
        inr (refl, λ p. let (r, e') = vercmp_total f a b p.0 p.1 in absurd (cc (e, e')))
    go out_of_fuel e = absurd (vercmp-ne-out_of_fuel f a b e)

-- So does `as_vercmp_test_match`.
pub test_match-Ends :
    (a : Option Bytes) (c : Compare) (b : Option Bytes) (ignore_epoch : Bool)
    → Ends a b (vercmp_test_match a c b ignore_epoch)
unfolding vercmp_test_match
test_match-Ends a Compare.unknown b f = inl (false, refl)
test_match-Ends a c b f = map_ends (sign_matches c) (vercmp f a b) (vercmp-Ends f a b)
  where
    map_ends : (g : Sign → Bool) (o : Outcome Sign) → Ends a b o → Ends a b (outcome_map g o)
    map_ends g o (inl (r, e)) = inl (g r, ap (outcome_map g) e)
    map_ends g o (inr (e, never)) = inr (ap (outcome_map g) e, never)
