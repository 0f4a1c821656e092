-- ===== src/ContentRating/System/Tables.antt =====
-- src/as-content-rating.c: the ages that a rating system tells apart, and their names.
use appstream.Base.{ℕ, List, [], ◌∷◌, Bytes, codes, length}
use appstream.ContentRating.System.{System, Locale, get_esrb_string}

-- The table `content_rating_strings`, without the NULL at the end of a row.
unfoldable pub content_rating_strings : System → List Bytes
content_rating_strings System.incaa = codes "ATP" ∷ codes "+13" ∷ codes "+18" ∷ []
content_rating_strings System.acb = codes "PG" ∷ codes "MA15+" ∷ codes "R18+" ∷ []
content_rating_strings System.djctq =
    codes "L" ∷ codes "10" ∷ codes "12" ∷ codes "14" ∷ codes "16" ∷ codes "18" ∷ []
content_rating_strings System.gsrr =
    codes "普通" ∷ codes "保護" ∷ codes "輔12" ∷ codes "輔15" ∷ codes "限制" ∷ []
content_rating_strings System.pegi =
    codes "3" ∷ codes "7" ∷ codes "12" ∷ codes "16" ∷ codes "18" ∷ []
content_rating_strings System.kavi =
    codes "3+" ∷ codes "7+" ∷ codes "12+" ∷ codes "16+" ∷ codes "18+" ∷ []
content_rating_strings System.usk =
    codes "0" ∷ codes "6" ∷ codes "12" ∷ codes "16" ∷ codes "18" ∷ []
content_rating_strings System.esra =
    codes "+3" ∷ codes "+7" ∷ codes "+12" ∷ codes "+15" ∷ codes "+18" ∷ []
content_rating_strings System.cero = codes "A" ∷ codes "B" ∷ codes "C" ∷ codes "D" ∷ codes "Z" ∷ []
content_rating_strings System.oflcnz =
    codes "G" ∷ codes "R13" ∷ codes "R15" ∷ codes "R16" ∷ codes "R18" ∷ []
content_rating_strings System.russia =
    codes "0+" ∷ codes "6+" ∷ codes "12+" ∷ codes "16+" ∷ codes "18+" ∷ []
content_rating_strings System.mda = codes "General" ∷ codes "ADV" ∷ codes "M18" ∷ []
content_rating_strings System.grac = codes "ALL" ∷ codes "12" ∷ codes "15" ∷ codes "18" ∷ []
content_rating_strings System.esrb =
    codes "Early Childhood"
    ∷ codes "Everyone"
    ∷ codes "Everyone 10+"
    ∷ codes "Teen"
    ∷ codes "Mature"
    ∷ codes "Adults Only"
    ∷ []
content_rating_strings System.iarc =
    codes "3+" ∷ codes "7+" ∷ codes "12+" ∷ codes "16+" ∷ codes "18+" ∷ []
content_rating_strings System.unknown = []

unfoldable pub esrb_ages : Locale → List Bytes → List Bytes
esrb_ages l [] = []
esrb_ages l (s ∷ ss) = get_esrb_string l s ∷ esrb_ages l ss

-- IARC stands in for an unknown system.
unfoldable pub fallback : System → System
fallback System.unknown = System.iarc
fallback s = s

-- `as_content_rating_system_get_formatted_ages`
unfoldable pub get_formatted_ages : Locale → System → List Bytes
get_formatted_ages l System.esrb = esrb_ages l (content_rating_strings System.esrb)
get_formatted_ages l s = content_rating_strings (fallback s)

-- The table `content_rating_csm_ages`, with its rows of seven.
unfoldable pub content_rating_csm_ages : System → List ℕ
content_rating_csm_ages System.incaa = 0 ∷ 13 ∷ 18 ∷ 0 ∷ 0 ∷ 0 ∷ 0 ∷ []
content_rating_csm_ages System.acb = 0 ∷ 15 ∷ 18 ∷ 0 ∷ 0 ∷ 0 ∷ 0 ∷ []
content_rating_csm_ages System.djctq = 0 ∷ 10 ∷ 12 ∷ 14 ∷ 16 ∷ 18 ∷ 0 ∷ []
content_rating_csm_ages System.gsrr = 0 ∷ 6 ∷ 12 ∷ 15 ∷ 18 ∷ 0 ∷ 0 ∷ []
content_rating_csm_ages System.pegi = 3 ∷ 7 ∷ 12 ∷ 16 ∷ 18 ∷ 0 ∷ 0 ∷ []
content_rating_csm_ages System.kavi = 3 ∷ 7 ∷ 12 ∷ 16 ∷ 18 ∷ 0 ∷ 0 ∷ []
content_rating_csm_ages System.usk = 0 ∷ 6 ∷ 12 ∷ 16 ∷ 18 ∷ 0 ∷ 0 ∷ []
content_rating_csm_ages System.esra = 3 ∷ 7 ∷ 12 ∷ 15 ∷ 18 ∷ 0 ∷ 0 ∷ []
content_rating_csm_ages System.cero = 0 ∷ 12 ∷ 15 ∷ 17 ∷ 18 ∷ 0 ∷ 0 ∷ []
content_rating_csm_ages System.oflcnz = 0 ∷ 13 ∷ 15 ∷ 16 ∷ 18 ∷ 0 ∷ 0 ∷ []
content_rating_csm_ages System.russia = 0 ∷ 6 ∷ 12 ∷ 16 ∷ 18 ∷ 0 ∷ 0 ∷ []
content_rating_csm_ages System.mda = 0 ∷ 16 ∷ 18 ∷ 0 ∷ 0 ∷ 0 ∷ 0 ∷ []
content_rating_csm_ages System.grac = 0 ∷ 12 ∷ 15 ∷ 18 ∷ 0 ∷ 0 ∷ 0 ∷ []
content_rating_csm_ages System.esrb = 0 ∷ 6 ∷ 10 ∷ 13 ∷ 17 ∷ 18 ∷ 0 ∷ []
content_rating_csm_ages System.iarc = 3 ∷ 7 ∷ 12 ∷ 16 ∷ 18 ∷ 0 ∷ 0 ∷ []
content_rating_csm_ages System.unknown = 0 ∷ 0 ∷ 0 ∷ 0 ∷ 0 ∷ 0 ∷ 0 ∷ []

-- `as_content_rating_system_get_csm_ages`: the row, and the number that goes to `length_out`.
unfoldable pub get_csm_ages : System → List ℕ × ℕ
get_csm_ages s =
    (content_rating_csm_ages (fallback s), length (content_rating_strings (fallback s)))
