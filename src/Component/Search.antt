-- ===== src/Component/Search.antt =====
-- src/as-component.c: the search tokens of a component, and how well search terms match them.
pub mod Index
pub mod Terms
mod Tests
use Prim.Native.Nat.{bit_or}
use appstream.Base.{
  ℕ, ◌*◌, Bool, true, false, not, ◌&&◌, ◌||◌, ◌==◌, Option, none, some, List, [], ◌∷◌, ◌++◌,
  if◌then◌else◌, Bytes, codes, str_equal, str_has_prefix, str_split, has_char, ltb, length,
}

-- `AsSearchTokenMatch`
abbrev pub match_mediatype : ℕ
match_mediatype = 1

abbrev pub match_pkgname : ℕ
match_pkgname = 2

abbrev match_origin : ℕ
match_origin = 4

abbrev pub match_description : ℕ
match_description = 8

abbrev pub match_summary : ℕ
match_summary = 16

abbrev pub match_keyword : ℕ
match_keyword = 32

abbrev pub match_name : ℕ
match_name = 64

abbrev pub match_id : ℕ
match_id = 128

-- `as_utils_search_token_valid`
pub has_markup : Bytes → Bool
has_markup [] = false
has_markup (c ∷ s) = c == b'<' || c == b'>' || c == b'(' || c == b')' || has_markup s

pub search_token_valid : Bytes → Bool
search_token_valid token = if has_markup token then false else not (ltb (length token) 3)

-- A token with its flags.
pub record Entry : Type 0 where
  pub token : Bytes
  pub flags : ℕ

-- The hash table `token_cache`; the order of the list stands for the order of its keys.
abbrev pub Cache : Type 0
Cache = List Entry

pub lookup : Cache → Bytes → Option ℕ
lookup [] token = none
lookup (e ∷ es) token = if str_equal e.token token then some e.flags else lookup es token

-- `*match_pval |= match_flag`
pub add_flags : Bytes → ℕ → Cache → Cache
add_flags token flag [] = []
add_flags token flag (e ∷ es) =
    let rest = add_flags token flag es in
    if str_equal e.token token then (record e { flags = bit_or e.flags flag }) ∷ es else e ∷ rest

-- The token cache, and the array `tokens_out`, which may be NULL.
pub record Tokens : Type 0 where
  pub cache : Cache
  pub tokens_out : Option (List Bytes)

pub add_out : Bytes → Option (List Bytes) → Option (List Bytes)
add_out token none = none
add_out token (some ts) = some (ts ++ token ∷ [])

-- What is done with a stemmed token.
pub add_stemmed : Bytes → ℕ → Tokens → Tokens
add_stemmed token flag t = elim (lookup t.cache token) [
  | some old ↦ record {
    cache = add_flags token flag t.cache;
    tokens_out = if ltb old flag then add_out token t.tokens_out else t.tokens_out;
  }
  | none ↦ record {
    cache = t.cache ++ (record { token = token; flags = flag }) ∷ [];
    tokens_out = add_out token t.tokens_out;
  }
]

-- What the code calls of the stemmer and of the text routines of GLib. `tokenize_and_fold` is
-- `g_str_tokenize_and_fold` for the active locale, with its ASCII alternates.
pub record Texts : Type 0 where
  pub stem : Bytes → Option Bytes
  pub tokenize_and_fold : Bytes → List Bytes × List Bytes
  pub strdown : Bytes → Bytes

-- `as_component_add_token_helper`
pub add_token_helper : Texts → Bytes → ℕ → Tokens → Tokens
add_token_helper x value flag t =
    if not (search_token_valid value)
    then t
    else if ltb flag match_summary && ltb (length value) 3
    then t
    else elim (x.stem value) [ none ↦ t | some token ↦ add_stemmed token flag t ]

pub add_pieces : Texts → List Bytes → ℕ → Tokens → Tokens
add_pieces x [] flag t = t
add_pieces x (v ∷ vs) flag t = add_pieces x vs flag (add_token_helper x v flag t)

-- `as_component_add_token`
pub add_token : Texts → Bytes → Bool → ℕ → Tokens → Tokens
add_token x value allow_split flag t =
    add_token_helper x value flag
      (if allow_split && has_char value b'-' then add_pieces x (str_split b'-' value) flag t else t)

-- `g_strdelimit (delim, "/,.;:", ' ')`
delimit : Bytes → Bytes
delimit [] = []
delimit (c ∷ s) =
    (if c == b'/' || c == b',' || c == b'.' || c == b';' || c == b':' then b' ' else c) ∷ delimit s

-- `as_component_value_tokenize`
pub value_tokenize : Texts → Bytes → List Bytes × List Bytes
value_tokenize x value =
    if not (has_char value b'+') && not (has_char value b'-')
    then x.tokenize_and_fold value
    else (str_split b' ' (delimit (x.strdown value)), [])

pub add_each : Texts → List Bytes → Bool → ℕ → Tokens → Tokens
add_each x [] allow_split flag t = t
add_each x (v ∷ vs) allow_split flag t =
    add_each x vs allow_split flag (add_token x v allow_split flag t)

-- `as_component_add_tokens`
pub add_tokens : Texts → Bytes → Bool → ℕ → Tokens → Tokens
add_tokens x value allow_split flag t =
    let (values_utf8, values_ascii) = value_tokenize x value in
    add_each x values_ascii allow_split flag (add_each x values_utf8 allow_split flag t)

pub add_keywords : Texts → List Bytes → Tokens → Tokens
add_keywords x [] t = t
add_keywords x (v ∷ vs) t = add_keywords x vs (add_tokens x v false match_keyword t)
