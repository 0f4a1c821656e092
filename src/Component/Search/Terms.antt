-- ===== src/Component/Search/Terms.antt =====
-- src/as-component.c: which texts of a component are searched, and the match of search terms.
pub mod Indexed
pub mod Score
pub mod Order
use Prim.Native.Nat.{bit_and, bit_or}
use appstream.Base.{
  ℕ, ◌*◌, Bool, true, false, ◌==◌, ltb, Option, none, some, List, [], ◌∷◌, if◌then◌else◌, Bytes,
  str_equal, str_has_prefix,
}
use appstream.Component.Search.{
  match_mediatype, match_pkgname, match_description, match_summary, match_keyword, match_name,
  match_id, Entry, Cache, lookup, Tokens, Texts, add_token, add_each, add_tokens, add_keywords,
}

-- What of a component is searched. `name` is the one of the active locale, `name_c` the untranslated
-- one; no media types and no package names are empty lists.
pub record Data : Type 0 where
  pub id : Option Bytes
  pub name : Option Bytes
  pub name_c : Option Bytes
  pub summary : Option Bytes
  pub description : Option Bytes
  pub keywords : List Bytes
  pub mediatypes : List Bytes
  pub pkgnames : List Bytes

-- `as_flags_contains`
pub flags_contain : ℕ → ℕ → Bool
flags_contain flags flag = ltb 0 (bit_and flags flag)

-- A step for a value that is given and asked for.
pub when_given : Bool → Option Bytes → (Bytes → Tokens → Tokens) → Tokens → Tokens
when_given false value step t = t
when_given true none step t = t
when_given true (some v) step t = step v t

-- The name, and the untranslated name if it differs.
pub add_names : Texts → Option Bytes → Bytes → Tokens → Tokens
add_names x name_c name t =
    let t' = add_tokens x name true match_name t in
    elim name_c [
      | none ↦ t'
      | some c ↦ if str_equal name c then t' else add_tokens x c true match_name t'
    ]

-- `as_component_create_token_cache_target`: the texts are those of the component itself, the id, the
-- media types and the package names those of the donor.
pub create_token_cache_target : Texts → Data → Data → ℕ → Tokens → Tokens
create_token_cache_target x cpt donor flags t =
    let asked = flags_contain flags in
    let t = when_given (asked match_id) donor.id (λ v. add_token x v false match_id) t in
    let t = when_given (asked match_name) cpt.name (add_names x donor.name_c) t in
    let t =
      when_given (asked match_summary) cpt.summary (λ v. add_tokens x v true match_summary) t in
    let t =
      when_given (asked match_description) cpt.description
        (λ v. add_tokens x v true match_description) t in
    let t = if asked match_keyword then add_keywords x cpt.keywords t else t in
    let t =
      if asked match_mediatype then add_each x donor.mediatypes false match_mediatype t else t in
    if asked match_pkgname then add_each x donor.pkgnames false match_pkgname t else t

pub add_donors : Texts → Data → List Data → ℕ → Tokens → Tokens
add_donors x cpt [] flags t = t
add_donors x cpt (d ∷ ds) flags t =
    add_donors x cpt ds flags (create_token_cache_target x cpt d flags t)

-- The searched part of `AsComponentPrivate`.
pub record Component : Type 0 where
  pub own : Data
  pub addons : List Data
  pub token_cache : Cache
  pub token_cache_valid : Bool
  pub sort_score : ℕ

abbrev tokens_at : Cache → Option (List Bytes) → Tokens
tokens_at cache out = record { cache = cache; tokens_out = out }

-- All flags of `as_component_create_token_cache`.
abbrev pub all_matches : ℕ
all_matches = 255

-- `as_component_create_token_cache`
pub create_token_cache : Texts → Component → Component
create_token_cache x c =
    let start = tokens_at c.token_cache none in
    let own = create_token_cache_target x c.own c.own all_matches start in
    let t = add_donors x c.own c.addons all_matches own in
    if c.token_cache_valid then c else record c { token_cache = t.cache; token_cache_valid = true }

-- `as_component_generate_tokens_for`
pub generate_tokens_for : Texts → ℕ → Component → Component × Option (List Bytes)
generate_tokens_for x token_kind c =
    let start = tokens_at c.token_cache (some []) in
    let own = create_token_cache_target x c.own c.own token_kind start in
    let t = add_donors x c.own c.addons token_kind own in
    (record c { token_cache = t.cache }, t.tokens_out)

-- The flags of all keys that begin with a term.
pub partial_flags : Cache → Bytes → ℕ → ℕ
partial_flags [] term result = result
partial_flags (e ∷ es) term result =
    partial_flags es term (if str_has_prefix e.token term then bit_or result e.flags else result)

-- The score of a term in a finished cache.
pub cache_matches : Cache → Bytes → ℕ
cache_matches cache term = elim (lookup cache term) [
  | some flags ↦ flags * 4
  | none ↦ partial_flags cache term 0
]

-- `as_component_search_matches`
pub search_matches : Texts → Component → Option Bytes → Component × ℕ
search_matches x c none = (c, 0)
search_matches x c (some term) =
    let c' = create_token_cache x c in (c', cache_matches c'.token_cache term)

-- The loop over the terms; `none` is the return of 0 ahead of its end.
pub match_terms : Texts → List Bytes → ℕ → Component → Component × Option ℕ
match_terms x [] matches_sum c = (c, some matches_sum)
match_terms x (term ∷ terms) matches_sum c =
    let (c', tmp) = search_matches x c (some term) in
    let rest = match_terms x terms (bit_or matches_sum tmp) c' in
    if tmp == 0 then (c', none) else rest

-- `as_component_search_matches_all`
pub search_matches_all : Texts → Component → Option (List Bytes) → Component × ℕ
search_matches_all x c none = (record c { sort_score = 1 }, 1)
search_matches_all x c (some terms) =
    let (c', sum) = match_terms x terms 0 (record c { sort_score = 0 }) in
    elim sum [
      | none ↦ (c', 0)
      | some matches_sum ↦ (record c' { sort_score = matches_sum }, matches_sum)
    ]

tokens_of : Cache → List Bytes
tokens_of [] = []
tokens_of (e ∷ es) = e.token ∷ tokens_of es

-- `as_component_get_search_tokens`
get_search_tokens : Texts → Component → Component × List Bytes
get_search_tokens x c = let c' = create_token_cache x c in (c', tokens_of c'.token_cache)
