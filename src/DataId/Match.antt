-- ===== src/DataId/Match.antt =====
-- What as_utils_data_id_match decides of two valid data ids.
use appstream.Base.{
  ℕ, suc, Bool, true, false, Option, none, some, List, [], ◌∷◌, if◌then◌else◌, Bytes, codes, length,
  str_equal_iff, ◌≡◌, ◌↔◌, ◌⊎◌, refl, arith, ap, ◌∙◌, inl, inr, Bool-cases,
}
use appstream.DataId.{
  data_id_valid, find_part, behind_part, is_wildcard_part, MatchFlags, flag_bits, part_matches,
  match_loop, data_id_match, data_id_equal, all_flags, str_equal_0,
}
use appstream.DataId.Sections.{sections, sections_behind, sections-find_part, valid-length}
use appstream.Vercmp.{Outcome, value}

-- Two sections agree where the flag is not set, where one is the wildcard, and where they are equal.
abbrev Agrees : Bool → Bytes → Bytes → Type 0
Agrees flag p q = (flag ≡ false) ⊎ (p ≡ codes "*") ⊎ (q ≡ codes "*") ⊎ (p ≡ q)

abbrev pub AllAgree : List Bool → List Bytes → List Bytes → Type 0
AllAgree (f ∷ fs) (p ∷ ps) (q ∷ qs) = Agrees f p q × AllAgree fs ps qs
AllAgree [] ps qs = Unit
AllAgree (f ∷ fs) [] qs = ⊥
AllAgree (f ∷ fs) (p ∷ ps) [] = ⊥

part_matches-Agrees : (flag : Bool) (p q : Bytes) → (part_matches flag p q ≡ true) ↔ Agrees flag p q
unfolding part_matches is_wildcard_part
part_matches-Agrees flag p q =
    ground (arith, str_equal_iff p q, str_equal_iff p (codes "*"), str_equal_iff q (codes "*"))

-- What the loop decides.
abbrev Decides : Outcome Bool → Type 0 → Type 0
Decides o P = (r : Bool) × (o ≡ value r) × ((r ≡ true) ↔ P)

Decides-both :
    (b : Bool) (o : Outcome Bool) (P Q : Type 0)
    → ((b ≡ true) ↔ P)
    → Decides o Q
    → Decides (if b then o else value false) (P × Q)
Decides-both true o P Q p (r, e, q) = (r, e, ((λ t. (p.0 refl, q.0 t)), (λ h. q.1 h.1)))
Decides-both false o P Q p d = (false, refl, ((λ t. absurd (cc)), (λ h. p.1 h.0)))

length_behind :
    (s : Bytes) (n : ℕ) → length (sections s) ≡ suc n → length (sections_behind (behind_part s)) ≡ n
length_behind s n e = ground (arith, e, sections-find_part s)

match_loop-AllAgree :
    (fs : List Bool) (d1 d2 : Option Bytes)
    → length (sections_behind d1) ≡ length fs
    → length (sections_behind d2) ≡ length fs
    → Decides (match_loop fs d1 d2) (AllAgree fs (sections_behind d1) (sections_behind d2))
unfolding match_loop
match_loop-AllAgree [] d1 d2 l1 l2 = (true, refl, ground arith)
match_loop-AllAgree (f ∷ fs) none d2 l1 l2 = absurd (omega (arith, l1))
match_loop-AllAgree (f ∷ fs) (some s1) none l1 l2 = absurd (omega (arith, l2))
match_loop-AllAgree (f ∷ fs) (some s1) (some s2) l1 l2 = rw (sections-find_part s1) (
    rw (sections-find_part s2) (
      Decides-both (part_matches f (find_part s1) (find_part s2))
        (match_loop fs (behind_part s1) (behind_part s2)) _ _
        (part_matches-Agrees f (find_part s1) (find_part s2))
        (match_loop-AllAgree fs (behind_part s1) (behind_part s2) (length_behind s1 _ l1)
          (length_behind s2 _ l2))))

-- On valid data ids `as_utils_data_id_match` stays within both strings, and returns TRUE exactly if
-- in each section that the flags ask for the two are equal or one of them is the wildcard.
pub data_id_match-AllAgree :
    (s1 s2 : Bytes) (flags : MatchFlags)
    → data_id_valid (some s1) ≡ true
    → data_id_valid (some s2) ≡ true
    → (r : Bool) × (data_id_match (some s1) (some s2) flags ≡ value r)
      × ((r ≡ true) ↔ AllAgree (flag_bits flags) (sections s1) (sections s2))
unfolding data_id_match
data_id_match-AllAgree s1 s2 flags v1 v2 = rw v1 (
    rw v2 (
      match_loop-AllAgree (flag_bits flags) (some s1) (some s2) (valid-length s1 v1)
        (valid-length s2 v2)))

AllAgree-same : (fs : List Bool) (ps : List Bytes) → length ps ≡ length fs → AllAgree fs ps ps
AllAgree-same [] ps e = _
AllAgree-same (f ∷ fs) [] e = absurd (omega (arith, e))
AllAgree-same (f ∷ fs) (p ∷ ps) e = (ground arith, AllAgree-same fs ps (omega (arith, e)))

-- A text is equal to itself as a data id, valid or not.
pub data_id_equal-same : (s : Bytes) → data_id_equal (some s) (some s) ≡ value true
unfolding data_id_equal data_id_match str_equal_0
data_id_equal-same s = elim (Bool-cases (data_id_valid (some s))) [
  | inl valid ↦
      let (r, decided, agree) = data_id_match-AllAgree s s all_flags valid valid in
      decided
      ∙ ap value (agree.1 (AllAgree-same (flag_bits all_flags) (sections s) (valid-length s valid)))
  | inr invalid ↦ ground (arith, invalid, str_equal_iff s s)
]
