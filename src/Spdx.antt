-- ===== src/Spdx.antt =====
-- src/as-spdx.c: tokens of license expressions, the check of an expression, and licenses of metadata.
pub mod Expression
mod Tests
pub mod RoundTrip
pub mod Brackets
pub mod Free
pub mod Lists
use appstream.Base.{
  ℕ, Bool, true, false, not, ◌&&◌, ◌||◌, Option, none, some, List, [], ◌∷◌, ◌++◌, ◌==◌,
  if◌then◌else◌, Bytes, codes, str_equal, ltb,
}

-- The lists of src/as-spdx-data.h, and `g_string_replace (s, find, replace, 1)` with its arguments
-- in the order `find`, `replace`, `s`.
pub record Tables : Type 0 where
  pub license_ids : List Bytes
  pub exception_ids : List Bytes
  pub replace_once : Bytes → Bytes → Bytes → Bytes

abbrev pub is_listed : List Bytes → Bytes → Bool
is_listed [] s = false
is_listed (i ∷ ids) s = str_equal i s || is_listed ids s

-- `g_str_has_prefix`
abbrev pub has_prefix : Bytes → Bytes → Bool
has_prefix s [] = true
has_prefix [] (p ∷ ps) = false
has_prefix (c ∷ s) (p ∷ ps) = c == p && has_prefix s ps

-- `as_is_spdx_license_id`, with `none` for NULL
pub is_spdx_license_id : Tables → Option Bytes → Bool
is_spdx_license_id t none = false
is_spdx_license_id t (some []) = false
is_spdx_license_id t (some (c ∷ s)) =
    if has_prefix (c ∷ s) (codes "LicenseRef-") then true else is_listed t.license_ids (c ∷ s)

-- `as_is_spdx_license_exception_id`
pub is_spdx_license_exception_id : Tables → Option Bytes → Bool
is_spdx_license_exception_id t none = false
is_spdx_license_exception_id t (some []) = false
is_spdx_license_exception_id t (some (c ∷ s)) = is_listed t.exception_ids (c ∷ s)

-- `AsSpdxHelper`
pub record Helper : Type 0 where
  pub last_token_literal : Bool
  pub array : List Bytes
  pub collect : Bytes

-- The string before a final plus.
pub strip_plus : Bytes → Option Bytes
strip_plus [] = none
strip_plus (c ∷ []) = if c == b'+' then some [] else none
strip_plus (c ∷ d ∷ s) = elim (strip_plus (d ∷ s)) [ none ↦ none | some r ↦ some (c ∷ r) ]

-- A license id with a plus: the id.
pub plus_license : Tables → Bytes → Option Bytes
plus_license t s = elim (strip_plus s) [
  | none ↦ none
  | some r ↦ if is_spdx_license_id t (some r) then some r else none
]

-- The table of old license ids in `as_spdx_license_tokenize_drop`.
abbrev pub old_licenses : List (Bytes × Bytes)
old_licenses =
    (codes "CC0", codes "CC0-1.0")
    ∷ (codes "CC-BY", codes "CC-BY-3.0")
    ∷ (codes "CC-BY-SA", codes "CC-BY-SA-3.0")
    ∷ (codes "GFDL", codes "GFDL-1.3")
    ∷ (codes "GPL-2", codes "GPL-2.0")
    ∷ (codes "GPL-3", codes "GPL-3.0")
    ∷ (codes "proprietary", codes "LicenseRef-proprietary")
    ∷ []

pub find_old : List (Bytes × Bytes) → Bytes → Option Bytes
find_old [] s = none
find_old (e ∷ es) s = if str_equal s e.0 then some e.1 else find_old es s

-- Adds tokens that are no literals, and empties the buffer.
pub emit : List Bytes → Helper → Helper
emit ts h = record { last_token_literal = false; array = h.array ++ ts; collect = [] }

-- The last token with a space and one more word.
pub join_last : List Bytes → Bytes → List Bytes
join_last [] s = s ∷ []
join_last (a ∷ []) s = (a ++ b' ' ∷ s) ∷ []
join_last (a ∷ b ∷ ws) s = a ∷ join_last (b ∷ ws) s

-- The branch for literals; a literal behind a literal is joined to it.
pub add_literal : Helper → Helper
add_literal h = record {
  last_token_literal = true;
  array = if h.last_token_literal then join_last h.array h.collect else h.array ++ h.collect ∷ [];
  collect = [];
}

-- The branches for the operators and for literals.
pub drop_word : Helper → Helper
drop_word h =
    if str_equal h.collect (codes "and") || str_equal h.collect (codes "AND")
    then emit (codes "&" ∷ []) h
    else if str_equal h.collect (codes "or") || str_equal h.collect (codes "OR")
    then emit (codes "|" ∷ []) h
    else if str_equal h.collect (codes "with") || str_equal h.collect (codes "WITH")
    then emit (codes "^" ∷ []) h
    else add_literal h

-- The branches for a license with a plus and for old license ids.
pub drop_license : Tables → Helper → Helper
drop_license t h = elim (plus_license t h.collect) [
  | some r ↦ emit ((b'@' ∷ r) ∷ codes "+" ∷ []) h
  | none ↦ elim (find_old old_licenses h.collect) [
    | some r ↦ emit ((b'@' ∷ r) ∷ []) h
    | none ↦ drop_word h
  ]
]

-- `as_spdx_license_tokenize_drop`
pub tokenize_drop : Tables → Helper → Helper
tokenize_drop t h =
    if str_equal h.collect []
    then h
    else if is_spdx_license_id t (some h.collect) || is_spdx_license_exception_id t (some h.collect)
    then emit ((b'@' ∷ h.collect) ∷ []) h
    else drop_license t h

abbrev pub is_bracket : ℕ → Bool
is_bracket c = c == b'(' || c == b')'

-- The loop of `as_spdx_license_tokenize`.
pub tokenize_char : Tables → ℕ → Helper → Helper
tokenize_char t c h =
    if is_bracket c
    then emit ((c ∷ []) ∷ []) (tokenize_drop t h)
    else if c == b' '
    then tokenize_drop t h
    else record h { collect = h.collect ++ c ∷ [] }

pub tokenize_loop : Tables → Bytes → Helper → Helper
tokenize_loop t [] h = tokenize_drop t h
tokenize_loop t (c ∷ s) h = tokenize_loop t s (tokenize_char t c h)

-- `as_utils_spdx_license_3to2`
pub spdx_license_3to2 : Tables → Bytes → Bytes
spdx_license_3to2 t s =
    t.replace_once (codes "-or-later") (codes "+") (t.replace_once (codes "-only") [] s)

abbrev pub no_tokens : Helper
no_tokens = record { last_token_literal = false; array = []; collect = [] }

-- `as_spdx_license_tokenize`
pub tokenize : Tables → Option Bytes → Option (List Bytes)
tokenize t none = none
tokenize t (some s) = some (tokenize_loop t (spdx_license_3to2 t s) no_tokens).array

-- The text of one token in `as_spdx_license_detokenize`.
pub token_text : Bytes → Bytes
token_text [] = []
token_text (c ∷ s) =
    if str_equal (c ∷ s) (codes "&")
    then codes " AND "
    else if str_equal (c ∷ s) (codes "|")
    then codes " OR "
    else if str_equal (c ∷ s) (codes "^")
    then codes " WITH "
    else if str_equal (c ∷ s) (codes "+")
    then codes "+"
    else if not (c == b'@')
    then c ∷ s
    else s

pub tokens_text : List Bytes → Bytes
tokens_text [] = []
tokens_text (a ∷ ws) = token_text a ++ tokens_text ws

-- `as_spdx_license_detokenize`
pub detokenize : Option (List Bytes) → Option Bytes
detokenize none = none
detokenize (some ts) = some (tokens_text ts)
