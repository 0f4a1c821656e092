-- ===== src/Stemmer/Init.antt =====
-- The language that a new stemmer works in.
use appstream.Base.{
  ℕ, true, false, none, some, [], ◌∷◌, Bytes, codes, str_equal_iff, str_has_prefix, has_char, ◌≡◌,
  ◌≢◌, refl, ◌∙◌, ap, arith,
}
use appstream.Stemmer.{
  until, locale_to_language, Snowball, Stemmer, reload, init, drop_empty, stem, global_stemmer, get,
}

has_char-until : (j k : ℕ) (s : Bytes) → has_char s k ≡ false → has_char (until j s) k ≡ false
unfolding until
has_char-until j k [] e = refl
has_char-until j k (c ∷ s) e = ground (arith, e, has_char-until j k s)

has_char-until_same : (k : ℕ) (s : Bytes) → has_char (until k s) k ≡ false
unfolding until
has_char-until_same k [] = refl
has_char-until_same k (c ∷ s) = ground (arith, has_char-until_same k s)

until-lacking : (k : ℕ) (s : Bytes) → has_char s k ≡ false → until k s ≡ s
unfolding until
until-lacking k [] e = refl
until-lacking k (c ∷ s) e = ground (arith, e, until-lacking k s)

-- The language of a POSIX locale is its own language.
language_twice :
    (locale : Bytes)
    → has_char locale b'-' ≡ false
    → locale_to_language (locale_to_language locale) ≡ locale_to_language locale
unfolding locale_to_language
language_twice locale posix =
    let front = until b'_' locale in
    let lang = until b'@' front in
    rw posix (
      rw (has_char-until b'@' b'-' front (has_char-until b'_' b'-' locale posix)) (
        ap (until b'@') (
          until-lacking b'_' lang
            (has_char-until b'@' b'_' front (has_char-until_same b'_' locale)))
        ∙ until-lacking b'@' lang (has_char-until_same b'@' front)))

reload-same :
    (w : Snowball) (locale : Bytes) (st : Stemmer)
    → locale_to_language locale ≡ st.current_lang
    → reload w locale st ≡ st
unfolding reload
reload-same w locale st e =
    ground (arith, e, str_equal_iff (locale_to_language locale) st.current_lang)

init-bare :
    (w : Snowball) (system : Bytes)
    → has_char system b'-' ≡ false
    → init w system ≡ record { sb = none; current_lang = locale_to_language system }
unfolding init
init-bare w system posix = reload-same w (locale_to_language system) _ (language_twice system posix)

-- A new stemmer that is asked for in a locale of the system's own language, or in none, stems no
-- term, whatever languages Snowball knows; asked for in another language that Snowball knows, it stems
-- in that language. The system's locale and the one that is asked for have no dash, and the latter does
-- not begin with "C".
pub get-new :
    (w : Snowball) (system locale term : Bytes)
    → has_char system b'-' ≡ false
    → str_has_prefix locale (codes "C") ≡ false
    → (stem w (get w system none none) term ≡ some term)
      × (locale_to_language locale ≡ locale_to_language system
          → stem w (get w system (some locale) none) term ≡ some term)
      × (locale_to_language locale ≢ locale_to_language system
          → w.knows (locale_to_language locale) ≡ true
          → stem w (get w system (some locale) none) term
            ≡ drop_empty (w.sb_stemmer_stem (locale_to_language locale) term))
unfolding get global_stemmer stem reload
get-new w system locale term posix named = rw (init-bare w system posix) (
    ground (
      arith,
      named,
      str_equal_iff (locale_to_language system) (locale_to_language system),
      str_equal_iff (locale_to_language locale) (locale_to_language system),
    ))
