-- ===== src/Component/Tags/Set.antt =====
-- The tags of a component as a set of texts.
use appstream.Base.{
  false, not, ◌&&◌, ◌||◌, List, [], ◌∷◌, ◌++◌, Bytes, str_equal, str_equal_iff, ◌≡◌, refl, arith,
  Bool-cases, inl, inr,
}
use appstream.Component.Tags.{
  tag_full, has_separator, holds_tag, add_tag, split_last, remove_first_fast, remove_found,
  remove_tag, has_tag,
}

-- Every tag stands once.
abbrev pub IsTagSet : List Bytes → Type 0
IsTagSet [] = Unit
IsTagSet (t ∷ ts) = (holds_tag ts t ≡ false) × IsTagSet ts

holds_tag-append :
    (ts : List Bytes) (t g : Bytes) → holds_tag (ts ++ t ∷ []) g ≡ (holds_tag ts g || str_equal t g)
unfolding holds_tag
holds_tag-append [] t g = ground arith
holds_tag-append (u ∷ ts) t g = ground (arith, holds_tag-append ts t g)

append-IsTagSet :
    (ts : List Bytes) (t : Bytes) → holds_tag ts t ≡ false → IsTagSet ts → IsTagSet (ts ++ t ∷ [])
unfolding holds_tag
append-IsTagSet [] t new _ = (refl, _)
append-IsTagSet (u ∷ ts) t new (first, set) = (
  ground (arith, new, first, holds_tag-append ts t u, str_equal_iff u t, str_equal_iff t u),
  append-IsTagSet ts t (ground (arith, new)) set,
)

holds_tag-split_last :
    (t : Bytes) (ts : List Bytes) (g : Bytes)
    → holds_tag (t ∷ ts) g ≡ (holds_tag (split_last t ts).0 g || str_equal (split_last t ts).1 g)
unfolding holds_tag split_last
holds_tag-split_last t [] g = ground arith
holds_tag-split_last t (u ∷ us) g = ground (arith, holds_tag-split_last u us g)

split_last-IsTagSet :
    (t : Bytes) (ts : List Bytes)
    → IsTagSet (t ∷ ts)
    → IsTagSet ((split_last t ts).1 ∷ (split_last t ts).0)
unfolding split_last holds_tag
split_last-IsTagSet t [] set = (refl, _)
split_last-IsTagSet t (u ∷ us) (new, set) =
    let last = (split_last u us).1 in
    let front = (split_last u us).0 in
    let (apart, rest) = split_last-IsTagSet u us set in
    (
      ground (
        arith,
        new,
        apart,
        holds_tag-split_last u us t,
        str_equal_iff t last,
        str_equal_iff last t,
      ),
      (ground (arith, new, holds_tag-split_last u us t), rest),
    )

remove_first_fast-holds :
    (t : Bytes) (ts : List Bytes) (g : Bytes)
    → holds_tag (remove_first_fast (t ∷ ts)) g ≡ holds_tag ts g
unfolding remove_first_fast split_last holds_tag
remove_first_fast-holds t [] g = refl
remove_first_fast-holds t (u ∷ us) g = ground (arith, holds_tag-split_last u us g)

remove_first_fast-IsTagSet :
    (t : Bytes) (ts : List Bytes) → IsTagSet ts → IsTagSet (remove_first_fast (t ∷ ts))
unfolding remove_first_fast split_last
remove_first_fast-IsTagSet t [] set = _
remove_first_fast-IsTagSet t (u ∷ us) set = split_last-IsTagSet u us set

remove_found-holds :
    (full : Bytes) (ts : List Bytes) (g : Bytes)
    → IsTagSet ts
    → ((remove_found full ts).1 ≡ holds_tag ts full)
      × (holds_tag (remove_found full ts).0 g ≡ (holds_tag ts g && not (str_equal full g)))
unfolding remove_found holds_tag
remove_found-holds full [] g _ = (refl, refl)
remove_found-holds full (t ∷ ts) g (new, set) = ground (
  arith,
  new,
  remove_found-holds full ts g set,
  remove_first_fast-holds t ts g,
  str_equal_iff t full,
  str_equal_iff full g,
  str_equal_iff t g,
)

remove_found-IsTagSet :
    (full : Bytes) (ts : List Bytes) → IsTagSet ts → IsTagSet (remove_found full ts).0
unfolding remove_found
remove_found-IsTagSet full [] set = _
remove_found-IsTagSet full (t ∷ ts) (new, set) = elim (Bool-cases (str_equal t full)) [
  | inl same ↦ rw same (remove_first_fast-IsTagSet t ts set)
  | inr other ↦
      rw other
        (ground (arith, new, remove_found-holds full ts t set), remove_found-IsTagSet full ts set)
]

-- Tags behave as a set of full texts in which every text stands once: a tag whose name has no "::" is
-- in it after it is added, one that is removed is gone, every other tag stays as it was, and the result
-- of a removal says whether the tag was there. A tag whose name has "::" is refused.
pub tags-IsTagSet :
    (ns tag full : Bytes) (tags : List Bytes)
    → IsTagSet tags
    → IsTagSet (add_tag ns tag tags).0
      × IsTagSet (remove_tag ns tag tags).0
      × ((add_tag ns tag tags).1 ≡ not (has_separator tag))
      × (holds_tag (add_tag ns tag tags).0 full
          ≡ (holds_tag tags full || not (has_separator tag) && str_equal (tag_full ns tag) full))
      × ((remove_tag ns tag tags).1 ≡ has_tag ns tag tags)
      × (holds_tag (remove_tag ns tag tags).0 full
          ≡ (holds_tag tags full && not (str_equal (tag_full ns tag) full)))
unfolding add_tag remove_tag has_tag
tags-IsTagSet ns tag full tags set = (
  ground (arith, set, append-IsTagSet tags (tag_full ns tag)),
  remove_found-IsTagSet (tag_full ns tag) tags set,
  ground arith,
  ground
      (arith, holds_tag-append tags (tag_full ns tag) full, str_equal_iff (tag_full ns tag) full),
  (remove_found-holds (tag_full ns tag) tags full set).0,
  (remove_found-holds (tag_full ns tag) tags full set).1,
)
