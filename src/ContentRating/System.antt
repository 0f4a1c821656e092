-- ===== src/ContentRating/System.antt =====
-- src/as-content-rating.c: the rating systems of countries, and how they name an age.
pub mod Tables
pub mod Territory
pub mod Format
use appstream.Base.{
  ℕ, Bool, Option, none, some, List, [], ◌∷◌, if◌then◌else◌, Bytes, codes, str_equal, leb, length,
  take,
}

-- `AsContentRatingSystem`
pub data System : Type 0 where
  unknown incaa acb djctq gsrr pegi kavi usk esra cero oflcnz russia mda grac esrb iarc : System

-- The translations: of a text, and of the format "%s (%s)" with its two arguments.
pub record Locale : Type 0 where
  pub translate : Bytes → Bytes
  pub beside : Bytes → Bytes → Bytes

system_to_string : System → Option Bytes
system_to_string System.incaa = some (codes "INCAA")
system_to_string System.acb = some (codes "ACB")
system_to_string System.djctq = some (codes "DJCTQ")
system_to_string System.gsrr = some (codes "GSRR")
system_to_string System.pegi = some (codes "PEGI")
system_to_string System.kavi = some (codes "KAVI")
system_to_string System.usk = some (codes "USK")
system_to_string System.esra = some (codes "ESRA")
system_to_string System.cero = some (codes "CERO")
system_to_string System.oflcnz = some (codes "OFLCNZ")
system_to_string System.russia = some (codes "RUSSIA")
system_to_string System.mda = some (codes "MDA")
system_to_string System.grac = some (codes "GRAC")
system_to_string System.esrb = some (codes "ESRB")
system_to_string System.iarc = some (codes "IARC")
system_to_string System.unknown = none

-- `get_esrb_string (source, _(source))`
pub get_esrb_string : Locale → Bytes → Bytes
get_esrb_string l source =
    if str_equal source (l.translate source) then source else l.beside source (l.translate source)

-- `as_content_rating_system_format_age`
pub format_age : Locale → System → ℕ → Option Bytes
format_age l System.incaa age =
    if leb 18 age
    then some (codes "+18")
    else if leb 13 age
    then some (codes "+13")
    else some (codes "ATP")
format_age l System.acb age =
    if leb 18 age
    then some (codes "R18+")
    else if leb 15 age
    then some (codes "MA15+")
    else some (codes "PG")
format_age l System.djctq age =
    if leb 18 age
    then some (codes "18")
    else if leb 16 age
    then some (codes "16")
    else if leb 14 age
    then some (codes "14")
    else if leb 12 age
    then some (codes "12")
    else if leb 10 age
    then some (codes "10")
    else some (codes "L")
format_age l System.gsrr age =
    if leb 18 age
    then some (codes "限制")
    else if leb 15 age
    then some (codes "輔15")
    else if leb 12 age
    then some (codes "輔12")
    else if leb 6 age
    then some (codes "保護")
    else some (codes "普通")
format_age l System.pegi age =
    if leb 18 age
    then some (codes "18")
    else if leb 16 age
    then some (codes "16")
    else if leb 12 age
    then some (codes "12")
    else if leb 7 age
    then some (codes "7")
    else if leb 3 age
    then some (codes "3")
    else none
format_age l System.kavi age =
    if leb 18 age
    then some (codes "18+")
    else if leb 16 age
    then some (codes "16+")
    else if leb 12 age
    then some (codes "12+")
    else if leb 7 age
    then some (codes "7+")
    else if leb 3 age
    then some (codes "3+")
    else none
format_age l System.usk age =
    if leb 18 age
    then some (codes "18")
    else if leb 16 age
    then some (codes "16")
    else if leb 12 age
    then some (codes "12")
    else if leb 6 age
    then some (codes "6")
    else some (codes "0")
format_age l System.esra age =
    if leb 18 age
    then some (codes "+18")
    else if leb 15 age
    then some (codes "+15")
    else if leb 12 age
    then some (codes "+12")
    else if leb 7 age
    then some (codes "+7")
    else if leb 3 age
    then some (codes "+3")
    else none
format_age l System.cero age =
    if leb 18 age
    then some (codes "Z")
    else if leb 17 age
    then some (codes "D")
    else if leb 15 age
    then some (codes "C")
    else if leb 12 age
    then some (codes "B")
    else some (codes "A")
format_age l System.oflcnz age =
    if leb 18 age
    then some (codes "R18")
    else if leb 16 age
    then some (codes "R16")
    else if leb 15 age
    then some (codes "R15")
    else if leb 13 age
    then some (codes "R13")
    else some (codes "G")
format_age l System.russia age =
    if leb 18 age
    then some (codes "18+")
    else if leb 16 age
    then some (codes "16+")
    else if leb 12 age
    then some (codes "12+")
    else if leb 6 age
    then some (codes "6+")
    else some (codes "0+")
format_age l System.mda age =
    if leb 18 age
    then some (codes "M18")
    else if leb 16 age
    then some (codes "ADV")
    else some (get_esrb_string l (codes "General"))
format_age l System.grac age =
    if leb 18 age
    then some (codes "18")
    else if leb 15 age
    then some (codes "15")
    else if leb 12 age
    then some (codes "12")
    else some (get_esrb_string l (codes "ALL"))
format_age l System.esrb age =
    if leb 18 age
    then some (get_esrb_string l (codes "Adults Only"))
    else if leb 17 age
    then some (get_esrb_string l (codes "Mature"))
    else if leb 13 age
    then some (get_esrb_string l (codes "Teen"))
    else if leb 10 age
    then some (get_esrb_string l (codes "Everyone 10+"))
    else if leb 6 age
    then some (get_esrb_string l (codes "Everyone"))
    else some (get_esrb_string l (codes "Early Childhood"))
format_age l System.iarc age =
    if leb 18 age
    then some (codes "18+")
    else if leb 16 age
    then some (codes "16+")
    else if leb 12 age
    then some (codes "12+")
    else if leb 7 age
    then some (codes "7+")
    else if leb 3 age
    then some (codes "3+")
    else none
format_age l System.unknown age =
    if leb 18 age
    then some (codes "18+")
    else if leb 16 age
    then some (codes "16+")
    else if leb 12 age
    then some (codes "12+")
    else if leb 7 age
    then some (codes "7+")
    else if leb 3 age
    then some (codes "3+")
    else none
