-- ===== src/Validator/Text.antt =====
-- src/as-validator.c: checks of one text.
use appstream.Base.{
  ◌≡◌, refl, arith, All, ℕ, Bool, true, false, not, ◌&&◌, ◌||◌, Option, none, some, [], ◌∷◌, ◌==◌,
  if◌then◌else◌, Bytes, codes, str_equal, str_has_prefix, str_str, drop, is_digit, is_alpha,
  is_upper, is_alnum, is_punct, length,
}
use appstream.Stemmer.{until}

-- The first occurrence of the scheme is followed by no space.
pub links : Bytes → Bytes → Bool
links scheme text = elim (str_str text scheme) [
  | none ↦ false
  | some t ↦ not (str_has_prefix (drop (length scheme) t) (codes " "))
]

-- `as_validate_has_hyperlink`
pub has_hyperlink : Option Bytes → Bool
has_hyperlink none = false
has_hyperlink (some text) =
    if links (codes "https://") text
    then true
    else if links (codes "http://") text
    then true
    else links (codes "ftp://") text

-- `as_validate_is_url`
is_url : Option Bytes → Bool
is_url none = false
is_url (some s) =
    if str_has_prefix s (codes "http://")
    then true
    else if str_has_prefix s (codes "https://")
    then true
    else str_has_prefix s (codes "ftp://")

-- `as_validate_is_secure_url`
is_secure_url : Bytes → Bool
is_secure_url s =
    if str_has_prefix s (codes "https://") then true else str_has_prefix s (codes "mailto:")

-- `as_is_empty`
pub is_empty_string : Option Bytes → Bool
is_empty_string none = true
is_empty_string (some []) = true
is_empty_string (some (c ∷ s)) = false

any_upper : Bytes → Bool
any_upper [] = false
any_upper (c ∷ s) = is_upper c || any_upper s

-- `g_strcmp0 (s, o) == 0`
pub equals_name : Bytes → Option Bytes → Bool
equals_name s none = false
equals_name s (some n) = str_equal s n

-- `as_validator_first_word_capitalized`; `name` is that of the current component.
pub first_word_capitalized : Option Bytes → Option Bytes → Bool → Bool
first_word_capitalized name none allow_punct = true
first_word_capitalized name (some []) allow_punct = true
first_word_capitalized name (some (c ∷ s)) allow_punct =
    let first_word = until b' ' (c ∷ s) in
    if is_digit c
    then true
    else if allow_punct && is_punct c
    then true
    else if any_upper first_word
    then true
    else equals_name first_word name

-- `as_validate_string_lowercase`
pub string_lowercase : Bytes → Bool
string_lowercase [] = true
string_lowercase (c ∷ s) = if is_alpha c && is_upper c then false else string_lowercase s

pub string_lowercase-All : (s : Bytes) → All (λ c. is_upper c ≡ false) s → string_lowercase s ≡ true
unfolding string_lowercase
string_lowercase-All [] _ = refl
string_lowercase-All (c ∷ s) (here, behind) = ground (arith, here, string_lowercase-All s behind)

-- A character of a component id.
abbrev pub is_id_char : ℕ → Bool
is_id_char c = is_alnum c || c == b'.' || c == b'-' || c == b'_'

-- `as_id_string_valid`
id_string_valid : Option Bytes → Bool → Bool
id_string_valid none allow_uppercase = false
id_string_valid (some []) allow_uppercase = true
id_string_valid (some (c ∷ s)) allow_uppercase =
    let rest = id_string_valid (some s) allow_uppercase in
    if not (is_id_char c)
    then false
    else if not allow_uppercase && is_alpha c && is_upper c
    then false
    else rest
