-- ===== src/Component/Tags.antt =====
-- src/as-component.c: the tags of a component, each a name with its namespace.
pub mod Set
mod Tests
use appstream.Base.{
  Bool, true, false, ◌||◌, List, [], ◌∷◌, ◌++◌, if◌then◌else◌, Bytes, codes, str_equal,
}

-- `g_strconcat (ns, "::", tag, NULL)`
pub tag_full : Bytes → Bytes → Bytes
tag_full ns tag = ns ++ codes "::" ++ tag

-- `g_strstr_len (s, -1, "::") != NULL`
pub has_separator : Bytes → Bool
has_separator [] = false
has_separator (c ∷ []) = false
has_separator (c ∷ d ∷ s) = str_equal (c ∷ d ∷ []) (codes "::") || has_separator (d ∷ s)

pub holds_tag : List Bytes → Bytes → Bool
holds_tag [] full = false
holds_tag (t ∷ ts) full = str_equal t full || holds_tag ts full

-- `as_component_add_tag`
pub add_tag : Bytes → Bytes → List Bytes → List Bytes × Bool
add_tag ns tag tags =
    let full = tag_full ns tag in
    if has_separator tag
    then (tags, false)
    else if holds_tag tags full
    then (tags, true)
    else (tags ++ full ∷ [], true)

-- The last element, and the list without it: what `g_ptr_array_remove_index_fast` takes from the end.
pub split_last : Bytes → List Bytes → List Bytes × Bytes
split_last t [] = ([], t)
split_last t (u ∷ us) = let (front, last) = split_last u us in (t ∷ front, last)

-- The last element takes the place of the one that is removed.
pub remove_first_fast : List Bytes → List Bytes
remove_first_fast [] = []
remove_first_fast (t ∷ ts) = let (front, last) = split_last t ts in replace_first front last
  where
    replace_first : List Bytes → Bytes → List Bytes
    replace_first [] last = []
    replace_first (u ∷ us) last = last ∷ us

-- The loop of `as_component_remove_tag`.
pub remove_found : Bytes → List Bytes → List Bytes × Bool
remove_found full [] = ([], false)
remove_found full (t ∷ ts) =
    let (ts', found) = remove_found full ts in
    if str_equal t full then (remove_first_fast (t ∷ ts), true) else (t ∷ ts', found)

-- `as_component_remove_tag`
pub remove_tag : Bytes → Bytes → List Bytes → List Bytes × Bool
remove_tag ns tag tags = remove_found (tag_full ns tag) tags

-- `as_component_has_tag`
pub has_tag : Bytes → Bytes → List Bytes → Bool
has_tag ns tag tags = holds_tag tags (tag_full ns tag)
