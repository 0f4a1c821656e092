-- ===== src/Relation/Score/Order.antt =====
-- The compatibility score does not depend on the order of the results.
use mathlib.Core.List.{Perm, Permᴰ}
use mathlib.Core.Path.{ap₂, fun_ext}
use mathlib.Core.Logic.{∥∥₁_elim}
use appstream.Base.{
  ◌≡◌, refl, sym, ◌∙◌, ap, Bool, true, false, ◌||◌, List, ◌∷◌, inl, inr, ℤ, pos, ◌+ℤ◌, ◌-ℤ◌,
  +ℤ_swap, arith, Option, none, some, Option-cases, if◌then◌else◌, negsuc,
}
use appstream.Relation.Kinds.{RelationKind, ItemKind}
use appstream.Relation.Check.{Status, unknown, satisfied, Checked}
use appstream.Relation.Score.{
  Tally, tally_requires, tally_recommends, tally_supports, tally_result, tally_all,
  get_compatibility_score, start, is_control, is_display, is_satisfied_status,
}

-- What a result does to the tally: an early return, or a change of the score and of the flags.
record Effect : Type 0 where
  gain : ℤ
  seen : Bool
  hit : Bool

abbrev apply : Option Effect → Tally → Option Tally
apply none t = none
apply (some e) t = some (record {
  score = t.score +ℤ e.gain;
  have_control_supports = t.have_control_supports || e.seen;
  found_supported_control = t.found_supported_control || e.hit;
})

abbrev no_effect : Effect
no_effect = record { gain = pos 0; seen = false; hit = false }

effect_requires : Status → Option Effect
effect_requires unknown = some (record no_effect { gain = negsuc 29 })
effect_requires satisfied = some no_effect
effect_requires _ = none

effect_recommends : Bool → Bool → Bool → Effect
effect_recommends control display true = record {
  gain = if control then pos 5 else pos 0;
  seen = control;
  hit = control;
}
effect_recommends control display false = record {
  gain = if display then negsuc 29 else negsuc 9;
  seen = control;
  hit = false;
}

effect_supports : Bool → Bool → Effect
effect_supports true ok = record { gain = if ok then pos 4 else pos 0; seen = true; hit = ok }
effect_supports false ok = record no_effect { gain = if ok then pos 2 else pos 0 }

effect : Checked → Option Effect
effect c = elim c.relation [
  | none ↦ some no_effect
  | some r ↦ elim r.kind [
    | RelationKind.requires ↦ effect_requires c.status
    | RelationKind.recommends ↦ some (
        effect_recommends (is_control r.item_kind) (is_display r.item_kind)
          (is_satisfied_status c.status))
    | RelationKind.supports ↦
        some (effect_supports (is_control r.item_kind) (is_satisfied_status c.status))
    | RelationKind.unknown ↦ some no_effect
  ]
]

requires-effect : (s : Status) (t : Tally) → tally_requires s t ≡ apply (effect_requires s) t
unfolding tally_requires effect_requires ◌+ℤ◌ ◌-ℤ◌
requires-effect unknown t = ground arith
requires-effect _ t = ground arith

recommends-effect :
    (i : ItemKind) (s : Status) (t : Tally)
    → some (tally_recommends i s t)
      ≡ apply (some (effect_recommends (is_control i) (is_display i) (is_satisfied_status s))) t
unfolding tally_recommends effect_recommends ◌+ℤ◌ ◌-ℤ◌
recommends-effect ItemKind.control s t = ground arith
recommends-effect ItemKind.display_length s t = ground arith
recommends-effect _ s t = ground arith

supports-effect :
    (i : ItemKind) (s : Status) (t : Tally)
    → some (tally_supports i s t)
      ≡ apply (some (effect_supports (is_control i) (is_satisfied_status s))) t
unfolding tally_supports effect_supports ◌+ℤ◌ ◌-ℤ◌
supports-effect ItemKind.control s t = ground arith
supports-effect ItemKind.display_length s t = ground arith
supports-effect _ s t = ground arith

no-effect : (t : Tally) → some t ≡ apply (some no_effect) t
unfolding ◌+ℤ◌
no-effect t = ground arith

result-effect : (c : Checked) (t : Tally) → tally_result c t ≡ apply (effect c) t
unfolding tally_result effect
result-effect c t = elim (Option-cases c.relation) [
  | inl e ↦ rw (e, tally_result, effect) (no-effect t)
  | inr (r, e) ↦ ground (
    arith,
    no-effect t,
    requires-effect c.status t,
    recommends-effect r.item_kind c.status t,
    supports-effect r.item_kind c.status t,
  )
]

and_then : Option Tally → (Tally → Option Tally) → Option Tally
and_then none f = none
and_then (some t) f = f t

-- The tallies that two effects lead to, in either order.
apply_swap :
    (d e : Option Effect) (t : Tally)
    → and_then (apply d t) (apply e) ≡ and_then (apply e t) (apply d)
unfolding and_then
apply_swap none none t = refl
apply_swap none (some e) t = refl
apply_swap (some d) none t = refl
apply_swap (some d) (some e) t = ground (arith, +ℤ_swap t.score d.gain e.gain)

tally_all_two :
    (c d : Checked) (cs : List Checked) (t : Tally)
    → tally_all (c ∷ d ∷ cs) t
      ≡ and_then (and_then (apply (effect c) t) (apply (effect d))) (tally_all cs)
unfolding tally_all and_then
tally_all_two c d cs t = rw (result-effect c t, tally_all) (go (apply (effect c) t))
  where
    go :
        (o : Option Tally)
        → elim o [ none ↦ none | some t' ↦ tally_all (d ∷ cs) t' ]
          ≡ and_then (and_then o (apply (effect d))) (tally_all cs)
    go none = refl
    go (some t') = rw (result-effect d t', tally_all) (last (apply (effect d) t'))
      where
        last :
            (o : Option Tally)
            → elim o [ none ↦ none | some t'' ↦ tally_all cs t'' ] ≡ and_then o (tally_all cs)
        last none = refl
        last (some t'') = refl

tally_all_swap :
    (c d : Checked) (cs : List Checked) (t : Tally)
    → tally_all (c ∷ d ∷ cs) t ≡ tally_all (d ∷ c ∷ cs) t
tally_all_swap c d cs t =
    tally_all_two c d cs t
    ∙ ap (λ o. and_then o (tally_all cs)) (apply_swap (effect c) (effect d) t)
    ∙ sym (tally_all_two d c cs t)

tally_all-Permᴰ :
    {cs ds : List Checked} → Permᴰ cs ds → (t : Tally) → tally_all cs t ≡ tally_all ds t
unfolding tally_all
tally_all-Permᴰ Permᴰ.nil t = refl
tally_all-Permᴰ (Permᴰ.cons {a} {b} {l₁} {l₂} e p) t =
    ap (λ x. tally_all (x ∷ l₁) t) e ∙ ap (next b t) (fun_ext (tally_all-Permᴰ p))
  where
    next : Checked → Tally → (Tally → Option Tally) → Option Tally
    next c t f = elim (tally_result c t) [ none ↦ none | some t' ↦ f t' ]
tally_all-Permᴰ (Permᴰ.swap {a} {b} {a'} {b'} {l} e f) t =
    tally_all_swap a b l t ∙ ap₂ (λ x y. tally_all (x ∷ y ∷ l) t) f e
tally_all-Permᴰ (Permᴰ.trans p q) t = tally_all-Permᴰ p t ∙ tally_all-Permᴰ q t

ℤ-set : IsSet ℤ
ℤ-set = hlevel

-- The score of a list of results is the score of every rearrangement of it.
pub score-Perm :
    {cs ds : List Checked} → Perm cs ds → get_compatibility_score cs ≡ get_compatibility_score ds
unfolding get_compatibility_score
score-Perm p = ∥∥₁_elim p (ℤ-set _ _) (λ q. ground (arith, tally_all-Permᴰ q start))
