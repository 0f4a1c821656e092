-- ===== src/Stemmer.antt =====
-- src/as-stemmer.c: the stemmer of search tokens, and the language it works in.
pub mod Init
mod Tests
use appstream.Base.{
  ℕ, Bool, true, false, ◌==◌, Option, none, some, List, [], ◌∷◌, if◌then◌else◌, Bytes, codes,
  str_equal, str_has_prefix, has_char,
}

-- The string ahead of the first `k`, or the whole string.
pub until : ℕ → Bytes → Bytes
until k [] = []
until k (c ∷ s) = if c == k then [] else c ∷ until k s

-- `as_utils_locale_to_language`
pub locale_to_language : Bytes → Bytes
locale_to_language locale =
    until b'@' (if has_char locale b'-' then until b'-' locale else until b'_' locale)

-- The Snowball library: the languages it knows, and the stem of a term in one of them.
pub record Snowball : Type 0 where
  pub knows : Bytes → Bool
  pub sb_stemmer_stem : Bytes → Bytes → Option Bytes

-- `AsStemmer`; `sb` is the language of the Snowball object, `none` for NULL.
pub record Stemmer : Type 0 where
  pub sb : Option Bytes
  pub current_lang : Bytes

-- `as_stemmer_reload`
pub reload : Snowball → Bytes → Stemmer → Stemmer
reload w locale st =
    let lang = locale_to_language locale in
    if str_equal lang st.current_lang
    then st
    else record { sb = if w.knows lang then some lang else none; current_lang = lang }

-- `as_stemmer_init`, with the system's locale.
pub init : Snowball → Bytes → Stemmer
init w locale =
    let lang = locale_to_language locale in
    reload w lang (record { sb = none; current_lang = lang })

-- An empty stem is dropped.
pub drop_empty : Option Bytes → Option Bytes
drop_empty (some []) = none
drop_empty o = o

-- `as_stemmer_stem`
pub stem : Snowball → Stemmer → Bytes → Option Bytes
stem w st term = elim st.sb [
  | none ↦ some term
  | some lang ↦ drop_empty (w.sb_stemmer_stem lang term)
]

-- The global object, made at the first call.
pub global_stemmer : Snowball → Bytes → Option Stemmer → Stemmer
global_stemmer w system none = init w system
global_stemmer w system (some st) = st

-- `as_stemmer_get`, on the stemmer that there is, or a new one.
pub get : Snowball → Bytes → Option Bytes → Option Stemmer → Stemmer
get w system locale existing =
    let st = global_stemmer w system existing in
    elim locale [
      | none ↦ reload w system st
      | some l ↦ if str_has_prefix l (codes "C") then reload w (codes "en") st else reload w l st
    ]
