-- ===== src/Pool/Merge.antt =====
-- src/as-component.c: the merge of one component into another.
pub mod Laws
use appstream.Base.{
  ℕ, Bool, true, false, ◌||◌, List, [], ◌∷◌, ◌++◌, if◌then◌else◌, Bytes, str_equal, ◌≡◌, refl,
  arith,
}
use appstream.Pool.Kinds.{MergeKind}
use appstream.Pool.{
  Component, Bundle, Localized, has_bundle, has_package, set_bundles_array, get_data_id,
  store_data_id,
}

-- `as_copy_l10n_hashtable` and `as_copy_gobject_array`: the copy, unless there is nothing to copy.
pub copy_over {ℓ} : {A : Type ℓ} → List A → List A → List A
copy_over [] dest = dest
copy_over (x ∷ src) dest = x ∷ src

-- The copy into a table only where that is empty.
copy_into_empty : Localized → Localized → Localized
copy_into_empty src [] = copy_over src []
copy_into_empty src (d ∷ dest) = d ∷ dest

unfoldable pub is_category : List Bytes → Bytes → Bool
is_category [] cat = false
is_category (c ∷ cs) cat = str_equal c cat || is_category cs cat

-- `g_hash_table_add` for each of the texts; the order of the table is not said, here it is that of the
-- additions.
pub add_keys : List Bytes → List Bytes → List Bytes
add_keys [] table = table
add_keys (k ∷ ks) table = add_keys ks (if is_category table k then table else table ++ k ∷ [])

pub merge_categories : List Bytes → List Bytes → List Bytes
merge_categories [] dest = dest
merge_categories (c ∷ cats) dest = add_keys dest (add_keys (c ∷ cats) [])

pub merge_append : Component → Component → Component
merge_append cpt source = record cpt {
  categories = merge_categories source.categories cpt.categories;
  suggestions = cpt.suggestions ++ source.suggestions;
  icons = cpt.icons ++ source.icons;
  name = copy_into_empty source.name cpt.name;
  summary = copy_into_empty source.summary cpt.summary;
  description = copy_into_empty source.description cpt.description;
}

pub merge_bundles : Component → Component → Component
merge_bundles cpt source = if has_bundle source then set_bundles_array source.bundles cpt else cpt

pub merge_replace : Component → Component → Component
merge_replace cpt source = record (merge_bundles cpt source) {
  name = copy_over source.name cpt.name;
  summary = copy_over source.summary cpt.summary;
  description = copy_over source.description cpt.description;
  pkgnames = copy_over source.pkgnames cpt.pkgnames;
  icons = copy_over source.icons cpt.icons;
  provided = copy_over source.provided cpt.provided;
}

-- `as_component_merge_with_mode`: the destination. Its debug message makes both sides store their data
-- ids; what that does to the source stands with the calls, where it has not stored its own before.
pub merge_with_mode : Component → Component → MergeKind → Component
merge_with_mode cpt source MergeKind.remove_component = cpt
merge_with_mode cpt source MergeKind.append = store_data_id (merge_append cpt source)
merge_with_mode cpt source MergeKind.replace = store_data_id (merge_replace cpt source)
merge_with_mode cpt source MergeKind.no_merge = store_data_id cpt

-- `as_component_merge`: the component, and the result.
pub merge : Component → Component → Component × Bool
merge cpt source = elim source.merge_kind [
  | MergeKind.no_merge ↦ (cpt, false)
  | k ↦ (merge_with_mode cpt source k, true)
]
