-- ===== src/Relation/Amounts/Compare.antt =====
-- as_compare_int_match against the order of the integers, and what follows for amounts.
use appstream.Base.{
  ℕ, ◌<◌, ◌≡◌, ◌≢◌, ◌↔◌, refl, true, false, ◌⊎◌, Option, none, some, arith, ℤ, pos, negsuc, ◌≤ℤ◌,
  inl, inr, Bool-cases,
}
use appstream.Relation.Kinds.{Compare, RelationKind, ItemKind, DisplaySideKind}
use appstream.Relation.{Relation, get_value_px}
use appstream.Relation.Check.{Verdict, gives, fails, Status, satisfied, compare_int_match, to_glong}
use appstream.Relation.Amounts.{memory_verdict, display_verdict, check_display_length}
use appstream.SystemInfo.{SystemInfo, get_display_length}
use appstream.Vercmp.{value}

-- The comparison as a relation between integers; `ne` and the unknown comparison are left out.
abbrev Holds : Compare → ℤ → ℤ → Type 0
Holds Compare.eq a b = a ≡ b
Holds Compare.lt a b = ¬ (b ≤ℤ a)
Holds Compare.gt a b = ¬ (a ≤ℤ b)
Holds Compare.le a b = a ≤ℤ b
Holds Compare.ge a b = b ≤ℤ a
Holds _ a b = ⊥

-- For every comparison but `ne`, `as_compare_int_match` decides the order that the comparison
-- names; the unknown comparison never matches.
compare_int_match_iff :
    (a b : ℤ) (c : Compare) → c ≢ Compare.ne → (compare_int_match a c b ≡ true) ↔ Holds c a b
unfolding compare_int_match
compare_int_match_iff a b Compare.ne h = absurd (h refl)
compare_int_match_iff (pos a) (pos b) _ h = ground arith
compare_int_match_iff (pos a) (negsuc b) _ h = ground arith
compare_int_match_iff (negsuc a) (pos b) _ h = ground arith
compare_int_match_iff (negsuc a) (negsuc b) _ h = ground arith

-- Under `ne` the second number is never read: a number other than 0 counts as different from
-- itself, and 0 as equal to every number.
compare_int_match-ne :
    (a b : ℤ)
    → a ≢ pos 0
    → (compare_int_match a Compare.ne a ≡ true) × (compare_int_match (pos 0) Compare.ne b ≡ false)
unfolding compare_int_match
compare_int_match-ne (pos a) b h = (ground arith, refl)
compare_int_match-ne (negsuc a) b h = (ground arith, refl)

abbrev status_of : Verdict → Option Status
status_of (gives c) = some c.status
status_of (fails e) = none

-- A memory relation that is no `ne` is satisfied exactly if the total compares with the wanted
-- amount as asked, or the relation only names supported amounts; else it is not satisfied.
memory_verdict-Holds :
    (r : Relation) (req : ℤ) (current : ℕ)
    → r.compare ≢ Compare.ne
    → (status_of (memory_verdict r req current) ≡ some satisfied)
      ↔ (Holds r.compare (to_glong current) req ⊎ (r.kind ≡ RelationKind.supports))
unfolding memory_verdict
memory_verdict-Holds r req current h =
    let decided = compare_int_match_iff (to_glong current) req r.compare h in
    elim (Bool-cases (compare_int_match (to_glong current) r.compare req)) [
      | inl m ↦ (λ _. inl (decided.0 m), λ _. ground arith)
      | inr m ↦ (
        λ e. inr (ground arith),
        λ o. elim o [ inl x ↦ absurd (cc (m, decided.1 x)) | inr k ↦ ground arith ],
      )
    ]

-- A display length relation with no value, on a known side and with the default comparison, is
-- not reported as invalid: it is satisfied by every display of fewer than 2^63 pixels.
display_no_value :
    (r : Relation) (s : SystemInfo)
    → r.item_kind ≡ ItemKind.display_length
    → r.value ≡ none
    → r.compare ≡ Compare.ge
    → r.display_side_kind ≢ DisplaySideKind.unknown
    → s.has_gui ≡ true
    → 0 < get_display_length r.display_side_kind s
    → get_display_length r.display_side_kind s < 0x8000_0000_0000_0000
    → (v : Verdict) × ((check_display_length r s).1 ≡ value v) × (status_of v ≡ some satisfied)
unfolding check_display_length display_verdict compare_int_match
display_no_value r s i n c d g p l =
    let px : get_value_px r ≡ negsuc 0 = unfold get_value_px in ground arith in
    (display_verdict r (negsuc 0) s, ground arith, ground arith)
