-- ===== src/Relation/Score/Bounds.antt =====
-- The bounds of the compatibility score, and the results that bring it to 0.
use appstream.Base.{
  ◌≡◌, ◌≢◌, List, [], ◌∷◌, ◌++◌, inl, inr, pos, ◌≤ℤ◌, arith, none, some, Option-cases,
}
use appstream.Relation.Kinds.{RelationKind}
use appstream.Relation.{Relation}
use appstream.Relation.Check.{unknown, satisfied, Checked}
use appstream.Relation.Score.{
  Tally, tally_requires, tally_result, tally_all, final_score, get_compatibility_score, start,
}

-- The score lies between 0 and 100, for every list of results.
pub score_bounds :
    (cs : List Checked)
    → (pos 0 ≤ℤ get_compatibility_score cs) × (get_compatibility_score cs ≤ℤ pos 100)
unfolding get_compatibility_score final_score
score_bounds cs = ground arith

-- A result of a required item that is neither satisfied nor unknown.
pub record IsFatal (c : Checked) (r : Relation) : Type 0 where
  pub relation_is : c.relation ≡ some r
  pub is_required : r.kind ≡ RelationKind.requires
  pub is_known : c.status ≢ unknown
  pub is_missed : c.status ≢ satisfied

tally_result_fatal :
    (c : Checked) (r : Relation) (t : Tally) → IsFatal c r → tally_result c t ≡ none
unfolding tally_result tally_requires
tally_result_fatal c r t f = ground (arith, f.relation_is, f.is_required, f.is_known, f.is_missed)

tally_all_fatal :
    (before after : List Checked) (c : Checked) (r : Relation) (t : Tally)
    → IsFatal c r
    → tally_all (before ++ c ∷ after) t ≡ none
unfolding tally_all
tally_all_fatal [] after c r t f = ground (arith, tally_result_fatal c r t f)
tally_all_fatal (d ∷ before) after c r t f = elim (Option-cases (tally_result d t)) [
  | inl e ↦ ground arith
  | inr (t', e) ↦ ground (arith, tally_all_fatal before after c r t' f)
]

-- A required item that is known not to be satisfied makes the score 0, wherever it stands.
pub score_fatal :
    (before after : List Checked) (c : Checked) (r : Relation)
    → IsFatal c r
    → get_compatibility_score (before ++ c ∷ after) ≡ pos 0
unfolding get_compatibility_score
score_fatal before after c r f = ground (arith, tally_all_fatal before after c r start f)
