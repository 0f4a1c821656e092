-- ===== src/ContentRating/System/Format.antt =====
-- The names of ages in a rating system, against its tables.
use appstream.Base.{
  ℕ, ◌<◌, Option, none, some, List, [], ◌∷◌, if◌then◌else◌, Bytes, codes, leb, take, length, ◌≡◌,
  refl, arith, str_equal_iff,
}
use appstream.ContentRating.System.{System, Locale, get_esrb_string, format_age}
use appstream.ContentRating.System.Tables.{
  content_rating_strings, esrb_ages, fallback, get_formatted_ages, content_rating_csm_ages,
  get_csm_ages,
}

-- The last name whose age is reached.
abbrev pub name_at : List ℕ → List Bytes → ℕ → Option Bytes
name_at [] names age = none
name_at (a ∷ ages) [] age = none
name_at (a ∷ ages) (x ∷ names) age = elim (name_at ages names age) [
  | some y ↦ some y
  | none ↦ if leb a age then some x else none
]

get_esrb_string-same : (l : Locale) (s : Bytes) → l.translate s ≡ s → get_esrb_string l s ≡ s
unfolding get_esrb_string
get_esrb_string-same l s e = ground (arith, e, str_equal_iff s s)

-- `as_content_rating_system_format_age` names an age by the last entry of the formatted ages whose
-- CSM age is reached, for every system and age, if the locale leaves "General" and "ALL" as they are.
-- The formatted ages are as many as `length_out` says, fewer than the seven of a row.
pub format_age-name_at :
    (l : Locale) (s : System) (age : ℕ)
    → l.translate (codes "General") ≡ codes "General"
    → l.translate (codes "ALL") ≡ codes "ALL"
    → (format_age l s age
        ≡ name_at (take (get_csm_ages s).1 (get_csm_ages s).0) (get_formatted_ages l s) age)
      × (length (get_formatted_ages l s) ≡ (get_csm_ages s).1)
      × ((get_csm_ages s).1 < 7)
unfolding format_age get_csm_ages get_formatted_ages content_rating_strings content_rating_csm_ages
    fallback esrb_ages
format_age-name_at l System.incaa age general all = (ground arith, refl, omega arith)
format_age-name_at l System.acb age general all = (ground arith, refl, omega arith)
format_age-name_at l System.djctq age general all = (ground arith, refl, omega arith)
format_age-name_at l System.gsrr age general all = (ground arith, refl, omega arith)
format_age-name_at l System.pegi age general all = (ground arith, refl, omega arith)
format_age-name_at l System.kavi age general all = (ground arith, refl, omega arith)
format_age-name_at l System.usk age general all = (ground arith, refl, omega arith)
format_age-name_at l System.esra age general all = (ground arith, refl, omega arith)
format_age-name_at l System.cero age general all = (ground arith, refl, omega arith)
format_age-name_at l System.oflcnz age general all = (ground arith, refl, omega arith)
format_age-name_at l System.russia age general all = (ground arith, refl, omega arith)
format_age-name_at l System.mda age general all =
    (ground (arith, get_esrb_string-same l _ general), refl, omega arith)
format_age-name_at l System.grac age general all =
    (ground (arith, get_esrb_string-same l _ all), refl, omega arith)
format_age-name_at l System.esrb age general all = (ground arith, refl, omega arith)
format_age-name_at l System.iarc age general all = (ground arith, refl, omega arith)
format_age-name_at l System.unknown age general all = (ground arith, refl, omega arith)
