-- ===== src/ContentRating/Ages.antt =====
-- Ages and values of content rating attributes belong together.
use mathlib.Core.Path.{subst}
use appstream.Base.{
  ℕ, ◌≤◌, Bool, true, false, Option, none, some, List, [], ◌∷◌, if◌then◌else◌, Bytes, leb, ◌≡◌, ◌↔◌,
  refl, sym, ◌∙◌, All, arith,
}
use appstream.Vercmp.{Outcome, value, over_read}
use appstream.ContentRating.{
  Value, none_given, mild, moderate, intense, rank, OarsVersion, v1_0, v1_1, version_rank, Mapping,
  oars_to_csm_mappings, find_mapping, is_oars_key, age_of, attribute_to_csm_age, value_at,
  from_csm_age_loop, attribute_from_csm_age, Key, ContentRating, minimum_age_loop, get_minimum_age,
}

-- The ages of a row do not fall.
abbrev IsRising : Mapping → Type 0
IsRising m =
    (m.csm_age_none ≤ m.csm_age_mild)
    × (m.csm_age_mild ≤ m.csm_age_moderate)
    × (m.csm_age_moderate ≤ m.csm_age_intense)

mappings-IsRising : All IsRising oars_to_csm_mappings
mappings-IsRising = ground arith

find_mapping-IsRising :
    (ms : List Mapping) (id : Bytes) (m : Mapping)
    → All IsRising ms
    → find_mapping ms id ≡ some m
    → IsRising m
unfolding find_mapping
find_mapping-IsRising [] id m _ e = absurd (cc)
find_mapping-IsRising (x ∷ ms) id m (p, ps) e =
    ground (arith, p, e, find_mapping-IsRising ms id m ps)

value_at-adjoint :
    (m : Mapping) (v : Value) (age : ℕ)
    → IsRising m
    → (rank v ≤ rank (value_at m age)) ↔ (age_of m v ≤ age)
unfolding value_at age_of
value_at-adjoint m v age (a, b, c) = ground arith

from_csm_age_loop-find :
    (ms : List Mapping) (id : Bytes) (age : ℕ)
    → from_csm_age_loop ms id age
      ≡ elim (find_mapping ms id) [ none ↦ over_read | some m ↦ value (value_at m age) ]
unfolding from_csm_age_loop find_mapping
from_csm_age_loop-find [] id age = refl
from_csm_age_loop-find (m ∷ ms) id age = ground (arith, from_csm_age_loop-find ms id age)

some_of :
    (o : Option Mapping) (f : Mapping → Bool)
    → elim o [ none ↦ false | some m ↦ f m ] ≡ true
    → (m : Mapping) × (o ≡ some m)
some_of none f e = absurd (cc)
some_of (some m) f e = (m, refl)

attribute_to_csm_age-find :
    (id : Bytes) (m : Mapping) (v : Value)
    → find_mapping oars_to_csm_mappings id ≡ some m
    → attribute_to_csm_age id v ≡ age_of m v
unfolding attribute_to_csm_age age_of
attribute_to_csm_age-find id m Value.unknown e = refl
attribute_to_csm_age-find id m none_given e = rw (e, attribute_to_csm_age)
attribute_to_csm_age-find id m mild e = rw (e, attribute_to_csm_age)
attribute_to_csm_age-find id m moderate e = rw (e, attribute_to_csm_age)
attribute_to_csm_age-find id m intense e = rw (e, attribute_to_csm_age)

pub version_in_range : (v : OarsVersion) → leb (version_rank v) 2 ≡ true
version_in_range OarsVersion.unknown = refl
version_in_range v1_0 = refl
version_in_range v1_1 = refl

none_of :
    (o : Option Mapping)
    → elim o [ none ↦ false | some m ↦ leb (version_rank m.oars_version) 2 ] ≡ false
    → o ≡ none
none_of none e = refl
none_of (some m) e = ground (arith, e, version_in_range m.oars_version)

-- For an id of OARS 1.1, `as_content_rating_attribute_from_csm_age` returns the highest value that
-- an age allows: a value is at most the one returned exactly if its own age is at most that age.
pub from_csm_age-adjoint :
    (id : Bytes) (age : ℕ)
    → is_oars_key id v1_1 ≡ true
    → (w : Value) × (attribute_from_csm_age id age ≡ value w)
      × ((v : Value) → (rank v ≤ rank w) ↔ (attribute_to_csm_age id v ≤ age))
unfolding is_oars_key attribute_from_csm_age
from_csm_age-adjoint id age known =
    let (m, e) =
      some_of (find_mapping oars_to_csm_mappings id) (λ m. leb (version_rank m.oars_version) 2)
        known in
    (
      value_at m age,
      (from_csm_age_loop-find oars_to_csm_mappings id age ∙ rw e refl),
      λ v.
          subst (λ n. (rank v ≤ rank (value_at m age)) ↔ (n ≤ age))
            (sym (attribute_to_csm_age-find id m v e))
            (value_at-adjoint m v age
              (find_mapping-IsRising oars_to_csm_mappings id m mappings-IsRising e)),
    )

-- For an id that is in no version of OARS, the loop of `as_content_rating_attribute_from_csm_age`
-- runs past the end of the table, at every age.
from_csm_age_over_read :
    (id : Bytes) (age : ℕ) → is_oars_key id v1_1 ≡ false → attribute_from_csm_age id age ≡ over_read
unfolding is_oars_key attribute_from_csm_age
from_csm_age_over_read id age unknown_id =
    from_csm_age_loop-find oars_to_csm_mappings id age
    ∙ rw (none_of (find_mapping oars_to_csm_mappings id) unknown_id) refl

-- Every rated item is one that an age allows.
abbrev AllAllowed : ℕ → List Key → Type 0
AllAllowed age ks = All (λ k. attribute_to_csm_age k.id k.value ≤ age) ks

minimum_age_loop-AllAllowed :
    (ks : List Key) (acc age : ℕ)
    → (minimum_age_loop ks acc ≤ age) ↔ ((acc ≤ age) × AllAllowed age ks)
unfolding minimum_age_loop
minimum_age_loop-AllAllowed [] acc age = ground arith
minimum_age_loop-AllAllowed (k ∷ ks) acc age = ground (
  arith,
  minimum_age_loop-AllAllowed ks acc age,
  minimum_age_loop-AllAllowed ks (attribute_to_csm_age k.id k.value) age,
)

-- The value of a rated item is at most the highest one that its id allows at an age.
abbrev pub IsAllowed : ℕ → Key → Type 0
IsAllowed age k =
    (w : Value) × (attribute_from_csm_age k.id age ≡ value w) × (rank k.value ≤ rank w)

value_inj : {v w : Value} → Outcome.value v ≡ Outcome.value w → v ≡ w
value_inj e = cc

AllAllowed-IsAllowed :
    (ks : List Key) (age : ℕ)
    → All (λ k. is_oars_key k.id v1_1 ≡ true) ks
    → AllAllowed age ks ↔ All (IsAllowed age) ks
AllAllowed-IsAllowed [] age _ = ((λ _. _), (λ _. _))
AllAllowed-IsAllowed (k ∷ ks) age (known, rest) =
    let (w, e, adjoint) = from_csm_age-adjoint k.id age known in
    let tail = AllAllowed-IsAllowed ks age rest in
    (
      (λ h. ((w, e, (adjoint k.value).1 h.0), tail.0 h.1)),
      (λ h. (
        (adjoint k.value).0 (subst (λ x. rank k.value ≤ rank x) (value_inj (sym h.0.1 ∙ e)) h.0.2),
        tail.1 h.1,
      )),
    )

guarded_some : (b : Bool) (n a : ℕ) → (if b then none else some n) ≡ some a → n ≡ a
guarded_some true n a e = absurd (cc)
guarded_some false n a e = cc

-- For a rating whose items have ids of OARS 1.1, the minimum age is the least age at which
-- `as_content_rating_attribute_from_csm_age` allows every item.
pub minimum_age-IsAllowed :
    (r : ContentRating) (a age : ℕ)
    → get_minimum_age r ≡ some a
    → All (λ k. is_oars_key k.id v1_1 ≡ true) r.keys
    → (a ≤ age) ↔ All (IsAllowed age) r.keys
unfolding get_minimum_age
minimum_age-IsAllowed r a age e known =
    let allowed = AllAllowed-IsAllowed r.keys age known in
    let least = minimum_age_loop-AllAllowed r.keys 0 age in
    let same = guarded_some _ (minimum_age_loop r.keys 0) a e in
    (
      (λ h. allowed.0 (least.0 (omega (arith, same, h))).1),
      (λ h. omega (arith, same, least.1 (omega arith, allowed.1 h))),
    )
