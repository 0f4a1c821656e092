-- ===== src/Vercmp/OverRead.antt =====
-- The versions for which as_vercmp reads behind its strings.
use appstream.Base.{
  ℕ, zero, suc, ◌≤◌, ◌<◌, ◌≡◌, ◌≢◌, refl, Bool, true, false, ◌||◌, none, some, [], ◌∷◌, ◌++◌, ◌⊎◌,
  arith, ◌==◌, Bytes, length, length-append, deref, is_digit, str_equal, str_equal_iff, inl, inr,
  Bool-cases, str_chr, str_rchr,
}
use appstream.Vercmp.Ends.{cmp_number_shorter}
use appstream.Vercmp.Flip.{cmp_number_flip}
use appstream.Vercmp.Parse.{DashAt-long}
use appstream.Vercmp.{
  same, over_read, cmp_number, behind, at_digits, choose, scan, cmp_part, version_parse, run_part,
  compare_versions, compare_parsed, vercmp_strings, vercmp,
}

cmp_number_self :
    (a : Bytes) → ((cmp_number a a).res ≡ same) × ((cmp_number a a).pa ≡ (cmp_number a a).pb)
cmp_number_self a = ground (arith, cmp_number_flip a a)

-- With both ends behind the pointers, the inner loop runs through equal strings.
scan_self :
    (ea eb : ℕ) (a : Bytes)
    → length a < ea
    → length a < eb
    → (scan ea eb a a ≡ behind)
      ⊎ ((t : Bytes) × (scan ea eb a a ≡ at_digits t t)
          × (length t ≤ length a)
          × (is_digit (deref t) ≡ true))
unfolding scan choose
scan_self ea eb [] p q = inl (ground arith)
scan_self ea eb (x ∷ a) p q = elim (Bool-cases (is_digit x)) [
  | inl d ↦ inr (x ∷ a, ground arith, omega arith, d)
  | inr d ↦ elim (scan_self ea eb a (omega arith) (omega arith)) [
    | inl e ↦ inl (ground arith)
    | inr (t, e, l, k) ↦ inr (t, ground arith, omega arith, k)
  ]
]

cmp_part_over_read :
    (fuel ea eb : ℕ) (a : Bytes)
    → length a < fuel
    → length a < ea
    → length a < eb
    → cmp_part fuel ea eb a a ≡ over_read
unfolding cmp_part
cmp_part_over_read zero ea eb a h p q = elim h [ ]
cmp_part_over_read (suc fuel) ea eb a h p q = elim (scan_self ea eb a p q) [
  | inl e ↦ ground arith
  | inr (t, e, l, d) ↦
      let (r, same_rest) = cmp_number_self t in
      let shorter =
        cmp_number_shorter ea eb t t (DashAt-long ea t (omega arith))
          (DashAt-long eb t (omega arith)) d r in
      ground (arith, cmp_part_over_read fuel ea eb (cmp_number t t).pa)
]

-- Does the string hold the byte `k`?
abbrev pub has : ℕ → Bytes → Bool
has k [] = false
has k (c ∷ s) = c == k || has k s

str_chr-append : (k : ℕ) (p s : Bytes) → has k p ≡ false → str_chr (p ++ k ∷ s) k ≡ some (k ∷ s)
str_chr-append k [] s h = ground arith
str_chr-append k (c ∷ p) s h = ground (arith, str_chr-append k p s)

pub str_rchr-none : (k : ℕ) (s : Bytes) → has k s ≡ false → str_rchr s k ≡ none
str_rchr-none k [] h = refl
str_rchr-none k (c ∷ s) h = ground (arith, str_rchr-none k s)

pub has-append : (k : ℕ) (p s : Bytes) → has k p ≡ false → has k s ≡ false → has k (p ++ s) ≡ false
has-append k [] s h q = q
has-append k (c ∷ p) s h q = ground (arith, has-append k p s)

-- The last `k` of `p ++ s` stands in `p`.
str_rchr-append :
    (k : ℕ) (p s : Bytes)
    → has k p ≡ true
    → has k s ≡ false
    → (t : Bytes) × (str_rchr (p ++ s) k ≡ some t) × (length s < length t)
str_rchr-append k [] s h q = absurd (cc)
str_rchr-append k (c ∷ p) s h q = elim (Bool-cases (has k p)) [
  | inl e ↦ let (t, f, l) = str_rchr-append k p s e q in (t, ground arith, l)
  | inr e ↦ (
    c ∷ (p ++ s),
    ground (arith, str_rchr-none k (p ++ s), has-append k p s),
    omega (arith, length-append p s),
  )
]

-- A version whose last dash stands ahead of its colon: prefix with the dash, colon, rest.
record Misplaced (v r : Bytes) : Type 0 where
  version_is : (version_parse v).version ≡ r
  end_ahead : length r < (version_parse v).version_end

parse-Misplaced :
    (p r : Bytes)
    → has b':' p ≡ false
    → has b'-' p ≡ true
    → has b'-' r ≡ false
    → Misplaced (p ++ b':' ∷ r) r
unfolding version_parse
parse-Misplaced p r colon dash rest =
    let (t, e, l) = str_rchr-append b'-' p (b':' ∷ r) dash (ground arith) in
    record {
      version_is = rw (str_chr-append b':' p r colon, version_parse);
      end_ahead = rw (e, version_parse) (omega (arith, l));
    }

run_over_read :
    (a b r : Bytes)
    → Misplaced a r
    → Misplaced b r
    → run_part
        (version_parse a).version
        (version_parse a).version_end
        (version_parse b).version
        (version_parse b).version_end
      ≡ over_read
unfolding run_part
run_over_read a b r ma mb =
    rw (ma.version_is, mb.version_is)
      (cmp_part_over_read _ _ _ r (omega arith) ma.end_ahead mb.end_ahead)

-- Two different versions that have a dash ahead of their colons, and the same text with no dash
-- behind them: with epochs ignored `as_vercmp` reads behind both strings.
pub vercmp_over_read :
    (p q r : Bytes)
    → has b':' p ≡ false
    → has b':' q ≡ false
    → has b'-' p ≡ true
    → has b'-' q ≡ true
    → has b'-' r ≡ false
    → p ++ b':' ∷ r ≢ q ++ b':' ∷ r
    → vercmp true (some (p ++ b':' ∷ r)) (some (q ++ b':' ∷ r)) ≡ over_read
unfolding vercmp vercmp_strings compare_parsed compare_versions
vercmp_over_read p q r cp cq dp dq dr ne =
    let a = p ++ b':' ∷ r in
    let b = q ++ b':' ∷ r in
    let ma = parse-Misplaced p r cp dp dr in
    let mb = parse-Misplaced q r cq dq dr in
    let differ : str_equal a b ≡ false = elim (Bool-cases (str_equal a b)) [
      | inl e ↦ absurd (ne ((str_equal_iff a b).0 e))
      | inr e ↦ e
    ] in
    ground (arith, differ, run_over_read a b r ma mb)
