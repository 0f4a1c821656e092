-- ===== src/Component/Tags/Tests.antt =====
-- Runs of the tags, and their theorem at a concrete component.
use appstream.Base.{not, ◌&&◌, ◌||◌, List, [], ◌∷◌, Bytes, codes, str_equal, ◌≡◌, refl, true}
use appstream.Component.Tags.{
  tag_full, has_separator, holds_tag, add_tag, remove_tag, remove_found, remove_first_fast,
  split_last, has_tag,
}
use appstream.Component.Tags.Set.{IsTagSet, tags-IsTagSet}

abbrev three_tags : List Bytes
three_tags = codes "lvfs::a" ∷ codes "lvfs::b" ∷ codes "lvfs::c" ∷ []

-- The last tag takes the place of the first.
first_removed :
    remove_tag (codes "lvfs") (codes "a") three_tags
    ≡ (codes "lvfs::c" ∷ codes "lvfs::b" ∷ [], true)
unfolding remove_tag remove_found remove_first_fast split_last tag_full
first_removed = refl

tags-IsTagSet_example :
    IsTagSet (add_tag (codes "lvfs") (codes "d") three_tags).0
    × IsTagSet (remove_tag (codes "lvfs") (codes "d") three_tags).0
    × ((add_tag (codes "lvfs") (codes "d") three_tags).1 ≡ not (has_separator (codes "d")))
    × (holds_tag (add_tag (codes "lvfs") (codes "d") three_tags).0 (codes "lvfs::a") ≡ (
        holds_tag three_tags (codes "lvfs::a")
        || not (has_separator (codes "d"))
          && str_equal (tag_full (codes "lvfs") (codes "d")) (codes "lvfs::a")))
    × ((remove_tag (codes "lvfs") (codes "d") three_tags).1
        ≡ has_tag (codes "lvfs") (codes "d") three_tags)
    × (holds_tag (remove_tag (codes "lvfs") (codes "d") three_tags).0 (codes "lvfs::a") ≡ (
        holds_tag three_tags (codes "lvfs::a")
        && not (str_equal (tag_full (codes "lvfs") (codes "d")) (codes "lvfs::a"))))
unfolding holds_tag
tags-IsTagSet_example =
    tags-IsTagSet (codes "lvfs") (codes "d") (codes "lvfs::a") three_tags (refl, (refl, (refl, _)))
