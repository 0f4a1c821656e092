-- ===== src/Component/Search/Tests.antt =====
-- Runs of the search, and its theorems at a concrete component.
use mathlib.Core.List.Perm
use appstream.Base.{◌≤◌, true, false, none, some, [], ◌∷◌, codes, str_split, ◌≡◌, ◌↔◌, refl, arith}
use appstream.Component.Search.{has_markup, search_token_valid, Entry, lookup, Texts}
use appstream.Component.Search.Index.{IsEntry, IsIndex}
use appstream.Component.Search.Terms.{
  Data, Component, search_matches, search_matches_all, generate_tokens_for,
}
use appstream.Component.Search.Terms.Indexed.{search-IsIndex, HasNoMatch, search_matches-HasNoMatch}
use appstream.Component.Search.Terms.Order.{search_matches_all-Perm}

-- Words between spaces, which are their own stems.
abbrev plain_texts : Texts
plain_texts = record {
  stem = λ s. some s;
  tokenize_and_fold = λ s. (str_split b' ' s, []);
  strdown = λ s. s;
}

abbrev editor_entry : Entry
editor_entry = record { token = codes "editor"; flags = 80 }

abbrev edited_entry : Entry
edited_entry = record { token = codes "edited"; flags = 16 }

abbrev editor_data : Data
editor_data = record {
  id = some (codes "org.example.Editor");
  name = some (codes "Fine Editor");
  name_c = none;
  summary = some (codes "Files can be edited");
  description = none;
  keywords = [];
  mediatypes = [];
  pkgnames = codes "fine-editor" ∷ [];
}

-- A component whose cache is still empty, and one that holds two tokens.
abbrev fresh_editor : Component
fresh_editor = record {
  own = editor_data;
  addons = [];
  token_cache = [];
  token_cache_valid = false;
  sort_score = 0;
}

abbrev ready_editor : Component
ready_editor = record fresh_editor {
  token_cache = editor_entry ∷ edited_entry ∷ [];
  token_cache_valid = true;
}

editor-IsEntry : IsEntry plain_texts editor_entry
unfolding search_token_valid has_markup
editor-IsEntry = record {
  stemmed = (codes "editor", refl, refl);
  some_flag = omega arith;
  few_flags = omega arith;
}

edited-IsEntry : IsEntry plain_texts edited_entry
unfolding search_token_valid has_markup
edited-IsEntry = record {
  stemmed = (codes "edited", refl, refl);
  some_flag = omega arith;
  few_flags = omega arith;
}

ready-IsIndex : IsIndex plain_texts ready_editor.token_cache
unfolding lookup
ready-IsIndex = (editor-IsEntry, refl, (edited-IsEntry, refl, _))

search-IsIndex_example :
    IsIndex plain_texts
      (search_matches plain_texts fresh_editor (some (codes "edit"))).0.token_cache
    × IsIndex plain_texts (generate_tokens_for plain_texts 64 fresh_editor).0.token_cache
search-IsIndex_example = search-IsIndex plain_texts fresh_editor 64 (some (codes "edit")) _

search_matches-HasNoMatch_example :
    ((search_matches plain_texts fresh_editor (some (codes "edit"))).1 ≤ 1020)
    × (((search_matches plain_texts fresh_editor (some (codes "edit"))).1 ≡ 0)
        ↔ HasNoMatch
            (codes "edit")
            (search_matches plain_texts fresh_editor (some (codes "edit"))).0.token_cache)
    × (search_matches plain_texts
          (search_matches plain_texts fresh_editor (some (codes "edit"))).0
          (some (codes "edit"))
        ≡ search_matches plain_texts fresh_editor (some (codes "edit")))
search_matches-HasNoMatch_example =
    search_matches-HasNoMatch plain_texts fresh_editor (codes "edit") _

search_matches_all-Perm_example :
    (search_matches_all plain_texts ready_editor (some (codes "edit" ∷ codes "editor" ∷ []))).1
    ≡ (search_matches_all plain_texts
        (record ready_editor { token_cache = edited_entry ∷ editor_entry ∷ [] })
        (some (codes "editor" ∷ codes "edit" ∷ []))).1
search_matches_all-Perm_example =
    search_matches_all-Perm plain_texts ready_editor refl ready-IsIndex (Perm.swap _ _ _)
      (Perm.swap _ _ _)
