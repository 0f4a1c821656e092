-- ===== src/ContentRating/System/Territory.antt =====
-- src/as-content-rating.c: the rating system of a locale.
pub mod Parse
use appstream.Base.{
  ℕ, Bool, true, false, ◌||◌, ◌==◌, Option, none, some, List, [], ◌∷◌, if◌then◌else◌, Bytes, codes,
  str_equal,
}
use appstream.Relation.Kinds.{is_text}
use appstream.ContentRating.System.{System}

-- The string ahead of the last `k` and the one behind it, or the whole string: `strrchr` with the
-- separator overwritten by a NUL.
pub cut_last : Bytes → ℕ → Bytes × Option Bytes
cut_last [] k = ([], none)
cut_last (c ∷ s) k =
    let rest = cut_last s k in
    elim rest.1 [
      | some t ↦ (c ∷ rest.0, some t)
      | none ↦ if c == k then ([], some s) else (c ∷ rest.0, none)
    ]

pub record LocaleParts : Type 0 where
  pub language : Bytes
  pub territory : Option Bytes
  pub codeset : Option Bytes
  pub modifier : Option Bytes

-- `parse_locale`; `none` is the return of FALSE.
pub parse_locale : Bytes → Option LocaleParts
parse_locale locale =
    let (s1, modifier) = cut_last locale b'@' in
    let (s2, codeset) = cut_last s1 b'.' in
    let (language, territory) = cut_last s2 b'_' in
    if str_equal language []
    then none
    else some (record {
      language = language;
      territory = territory;
      codeset = codeset;
      modifier = modifier;
    })

is_one_of : List Bytes → Option Bytes → Bool
is_one_of [] territory = false
is_one_of (t ∷ ts) territory = is_text territory t || is_one_of ts territory

abbrev incaa_territories : List Bytes
incaa_territories = codes "AR" ∷ []

abbrev acb_territories : List Bytes
acb_territories = codes "AU" ∷ []

abbrev djctq_territories : List Bytes
djctq_territories = codes "BR" ∷ []

abbrev gsrr_territories : List Bytes
gsrr_territories = codes "TW" ∷ []

abbrev pegi_territories : List Bytes
pegi_territories =
    codes "GB"
    ∷ codes "AL"
    ∷ codes "AD"
    ∷ codes "AM"
    ∷ codes "AT"
    ∷ codes "AZ"
    ∷ codes "BY"
    ∷ codes "BE"
    ∷ codes "BA"
    ∷ codes "BG"
    ∷ codes "HR"
    ∷ codes "CY"
    ∷ codes "CZ"
    ∷ codes "DK"
    ∷ codes "EE"
    ∷ codes "FR"
    ∷ codes "GE"
    ∷ codes "GR"
    ∷ codes "HU"
    ∷ codes "IS"
    ∷ codes "IT"
    ∷ codes "LZ"
    ∷ codes "XK"
    ∷ codes "LV"
    ∷ codes "FL"
    ∷ codes "LU"
    ∷ codes "LT"
    ∷ codes "MK"
    ∷ codes "MT"
    ∷ codes "MD"
    ∷ codes "MC"
    ∷ codes "ME"
    ∷ codes "NL"
    ∷ codes "NO"
    ∷ codes "PL"
    ∷ codes "PT"
    ∷ codes "RO"
    ∷ codes "SM"
    ∷ codes "RS"
    ∷ codes "SK"
    ∷ codes "SI"
    ∷ codes "ES"
    ∷ codes "SE"
    ∷ codes "CH"
    ∷ codes "TR"
    ∷ codes "UA"
    ∷ codes "VA"
    ∷ codes "IN"
    ∷ codes "IL"
    ∷ codes "PK"
    ∷ codes "ZA"
    ∷ []

abbrev kavi_territories : List Bytes
kavi_territories = codes "FI" ∷ []

abbrev usk_territories : List Bytes
usk_territories = codes "DE" ∷ []

abbrev esra_territories : List Bytes
esra_territories = codes "IR" ∷ []

abbrev cero_territories : List Bytes
cero_territories = codes "JP" ∷ []

abbrev oflcnz_territories : List Bytes
oflcnz_territories = codes "NZ" ∷ []

abbrev russia_territories : List Bytes
russia_territories = codes "RU" ∷ []

abbrev mda_territories : List Bytes
mda_territories = codes "SQ" ∷ []

abbrev grac_territories : List Bytes
grac_territories = codes "KR" ∷ []

abbrev esrb_territories : List Bytes
esrb_territories = codes "US" ∷ codes "CA" ∷ codes "MX" ∷ []

-- The tests for territories in `as_content_rating_system_from_locale`.
pub system_of_territory : Option Bytes → System
system_of_territory territory =
    if is_one_of incaa_territories territory
    then System.incaa
    else if is_one_of acb_territories territory
    then System.acb
    else if is_one_of djctq_territories territory
    then System.djctq
    else if is_one_of gsrr_territories territory
    then System.gsrr
    else if is_one_of pegi_territories territory
    then System.pegi
    else if is_one_of kavi_territories territory
    then System.kavi
    else if is_one_of usk_territories territory
    then System.usk
    else if is_one_of esra_territories territory
    then System.esra
    else if is_one_of cero_territories territory
    then System.cero
    else if is_one_of oflcnz_territories territory
    then System.oflcnz
    else if is_one_of russia_territories territory
    then System.russia
    else if is_one_of mda_territories territory
    then System.mda
    else if is_one_of grac_territories territory
    then System.grac
    else if is_one_of esrb_territories territory
    then System.esrb
    else System.iarc

-- `as_content_rating_system_from_locale`
pub system_from_locale : Option Bytes → System
system_from_locale none = System.iarc
system_from_locale (some locale) = elim (parse_locale locale) [
  | none ↦ System.iarc
  | some p ↦ system_of_territory p.territory
]
