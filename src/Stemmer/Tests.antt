-- ===== src/Stemmer/Tests.antt =====
-- Runs of the stemmer, and its theorem at concrete locales.
use appstream.Base.{true, none, some, [], ◌∷◌, codes, ◌≡◌, ◌≢◌, refl}
use appstream.Stemmer.{locale_to_language, until, Snowball, drop_empty, stem, get}
use appstream.Stemmer.Init.{get-new}

-- A library that knows every language and stems each term to its first byte.
abbrev first_byte : Snowball
first_byte = record {
  knows = λ lang. true;
  sb_stemmer_stem = λ lang term. elim term [ [] ↦ some [] | c ∷ s ↦ some (c ∷ []) ];
}

valencian : locale_to_language (codes "ca_ES@valencia") ≡ codes "ca"
unfolding locale_to_language until
valencian = refl

get-new_example :
    (stem first_byte (get first_byte (codes "de_DE") none none) (codes "haus")
      ≡ some (codes "haus"))
    × (locale_to_language (codes "fr_FR") ≡ locale_to_language (codes "de_DE")
        → stem first_byte
            (get first_byte (codes "de_DE") (some (codes "fr_FR")) none)
            (codes "haus")
          ≡ some (codes "haus"))
    × (locale_to_language (codes "fr_FR") ≢ locale_to_language (codes "de_DE")
        → first_byte.knows (locale_to_language (codes "fr_FR")) ≡ true
        → stem first_byte
            (get first_byte (codes "de_DE") (some (codes "fr_FR")) none)
            (codes "haus")
          ≡ drop_empty
              (first_byte.sb_stemmer_stem (locale_to_language (codes "fr_FR")) (codes "haus")))
get-new_example = get-new first_byte (codes "de_DE") (codes "fr_FR") (codes "haus") refl refl
