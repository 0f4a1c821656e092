-- ===== src/Pool/Merge/Laws.antt =====
-- src/as-component.c: laws of merging components.
use appstream.Base.{
  false, ◌||◌, List, [], ◌∷◌, ◌++◌, Bytes, str_equal, str_equal_iff, ◌≡◌, refl, arith, Bool-cases,
  inl, inr, ◌↔◌, ◌⊎◌, ◌≢◌,
}
use appstream.Pool.Kinds.{MergeKind}
use appstream.Pool.{Component, has_bundle, set_bundles_array, store_data_id, get_data_id}
use appstream.Pool.Merge.{
  copy_over, is_category, add_keys, merge_categories, merge_append, merge_bundles, merge_replace,
  merge_with_mode,
}

copy_over_twice {ℓ} :
    {A : Type ℓ} (src dest : List A) → copy_over src (copy_over src dest) ≡ copy_over src dest
unfolding copy_over
copy_over_twice [] dest = refl
copy_over_twice (x ∷ src) dest = refl

is_category-append :
    (cs : List Bytes) (c cat : Bytes)
    → is_category (cs ++ c ∷ []) cat ≡ (is_category cs cat || str_equal c cat)
unfolding is_category
is_category-append [] c cat = ground arith
is_category-append (d ∷ cs) c cat = ground (arith, is_category-append cs c cat)

is_category-add_keys :
    (ks table : List Bytes) (cat : Bytes)
    → is_category (add_keys ks table) cat ≡ (is_category table cat || is_category ks cat)
unfolding add_keys is_category
is_category-add_keys [] table cat = ground arith
is_category-add_keys (k ∷ ks) table cat = elim (Bool-cases (is_category table k)) [
  | inl known ↦
      rw known (ground (arith, known, is_category-add_keys ks table cat, str_equal_iff k cat))
  | inr fresh ↦ rw fresh (
      ground (arith, is_category-add_keys ks (table ++ k ∷ []) cat, is_category-append table k cat))
]

-- Every category stands once.
abbrev pub IsCategorySet : List Bytes → Type 0
IsCategorySet [] = Unit
IsCategorySet (c ∷ cs) = (is_category cs c ≡ false) × IsCategorySet cs

append-IsCategorySet :
    (cs : List Bytes) (c : Bytes)
    → is_category cs c ≡ false
    → IsCategorySet cs
    → IsCategorySet (cs ++ c ∷ [])
unfolding is_category
append-IsCategorySet [] c fresh _ = (refl, _)
append-IsCategorySet (d ∷ cs) c fresh (first, set) = (
  ground (arith, fresh, first, is_category-append cs c d, str_equal_iff d c, str_equal_iff c d),
  append-IsCategorySet cs c (ground (arith, fresh)) set,
)

add_keys-IsCategorySet :
    (ks table : List Bytes) → IsCategorySet table → IsCategorySet (add_keys ks table)
unfolding add_keys
add_keys-IsCategorySet [] table set = set
add_keys-IsCategorySet (k ∷ ks) table set = elim (Bool-cases (is_category table k)) [
  | inl known ↦ rw known (add_keys-IsCategorySet ks table set)
  | inr fresh ↦
      rw fresh
        (add_keys-IsCategorySet ks (table ++ k ∷ []) (append-IsCategorySet table k fresh set))
]

-- The categories of a merge are a set exactly if those of the destination are, or there are new ones.
merge_categories-IsCategorySet :
    (src dest : List Bytes)
    → IsCategorySet (merge_categories src dest) ↔ (IsCategorySet dest ⊎ (src ≢ []))
unfolding merge_categories
merge_categories-IsCategorySet [] dest =
    (inl, λ w. elim w [ inl set ↦ set | inr filled ↦ absurd (filled refl) ])
merge_categories-IsCategorySet (c ∷ cats) dest = (
  λ set. inr (λ e. cc),
  λ w. add_keys-IsCategorySet dest _ (add_keys-IsCategorySet (c ∷ cats) [] _),
)

merge_categories-union :
    (src dest : List Bytes) (cat : Bytes)
    → is_category (merge_categories src dest) cat ≡ (is_category src cat || is_category dest cat)
unfolding merge_categories is_category
merge_categories-union [] dest cat = refl
merge_categories-union (c ∷ cats) dest cat = ground (
  arith,
  is_category-add_keys dest (add_keys (c ∷ cats) []) cat,
  is_category-add_keys (c ∷ cats) [] cat,
)

merge_replace_twice :
    (c s : Component)
    → merge_with_mode (merge_with_mode c s MergeKind.replace) s MergeKind.replace
      ≡ merge_with_mode c s MergeKind.replace
unfolding merge_with_mode merge_replace merge_bundles store_data_id get_data_id set_bundles_array
merge_replace_twice c s = elim (Bool-cases (has_bundle s)) [
  | inl given ↦ rw given (
      rw (copy_over_twice s.name c.name) (
        rw (copy_over_twice s.summary c.summary) (
          rw (copy_over_twice s.description c.description) (
            rw (copy_over_twice s.pkgnames c.pkgnames) (
              rw (copy_over_twice s.icons c.icons)
                (rw (copy_over_twice s.provided c.provided) refl))))))
  | inr missing ↦ rw missing (
      rw (copy_over_twice s.name c.name) (
        rw (copy_over_twice s.summary c.summary) (
          rw (copy_over_twice s.description c.description) (
            rw (copy_over_twice s.pkgnames c.pkgnames) (
              rw (copy_over_twice s.icons c.icons)
                (rw (copy_over_twice s.provided c.provided) refl))))))
]

-- A merge that replaces is done with the first time: a second one with the same source changes nothing.
-- A merge that appends makes the categories the union of both sides; each stands once exactly if that
-- was so before or the source has a category. A merge that removes changes nothing at all.
pub merge_with_mode-laws :
    (c s : Component) (cat : Bytes)
    → (merge_with_mode (merge_with_mode c s MergeKind.replace) s MergeKind.replace
        ≡ merge_with_mode c s MergeKind.replace)
      × (is_category (merge_with_mode c s MergeKind.append).categories cat
          ≡ (is_category s.categories cat || is_category c.categories cat))
      × (IsCategorySet (merge_with_mode c s MergeKind.append).categories
          ↔ (IsCategorySet c.categories ⊎ (s.categories ≢ [])))
      × (merge_with_mode c s MergeKind.remove_component ≡ c)
unfolding merge_with_mode merge_append store_data_id
merge_with_mode-laws c s cat = (
  merge_replace_twice c s,
  merge_categories-union s.categories c.categories cat,
  merge_categories-IsCategorySet s.categories c.categories,
  refl,
)
