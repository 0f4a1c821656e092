-- ===== src/ContentRating/Tests.antt =====
-- Runs of the content ratings, and their theorems at concrete ratings and locales.
use appstream.Base.{◌≤◌, ◌<◌, some, [], ◌∷◌, codes, take, length, ◌≡◌, ◌↔◌, refl, All}
use appstream.ContentRating.{
  Value, moderate, intense, rank, is_oars_key, find_mapping, attribute_to_csm_age,
  attribute_from_csm_age, ContentRating, get_minimum_age, minimum_age_loop, age_of,
}
use appstream.ContentRating.Ages.{from_csm_age-adjoint, IsAllowed, minimum_age-IsAllowed}
use appstream.ContentRating.System.{System, Locale, format_age}
use appstream.ContentRating.System.Tables.{get_csm_ages, get_formatted_ages}
use appstream.ContentRating.System.Format.{name_at, format_age-name_at}
use appstream.ContentRating.System.Territory.{LocaleParts}
use appstream.Vercmp.{value}

-- A game with fights and a chat.
abbrev game : ContentRating
game = record {
  kind = some (codes "oars-1.1");
  keys =
      (record { id = codes "violence-cartoon"; value = moderate })
      ∷ (record { id = codes "social-chat"; value = intense })
      ∷ [];
}

game_minimum_age : get_minimum_age game ≡ some 13
unfolding get_minimum_age minimum_age_loop attribute_to_csm_age find_mapping age_of
game_minimum_age = refl

-- A locale that translates nothing.
abbrev plain_locale : Locale
plain_locale = record { translate = λ s. s; beside = λ s t. s }

abbrev swiss : LocaleParts
swiss = record {
  language = codes "de";
  territory = some (codes "CH");
  codeset = some (codes "UTF-8");
  modifier = some (codes "euro");
}

from_csm_age-adjoint_example :
    (w : Value) × (attribute_from_csm_age (codes "violence-cartoon") 5 ≡ value w)
    × ((v : Value) → (rank v ≤ rank w) ↔ (attribute_to_csm_age (codes "violence-cartoon") v ≤ 5))
unfolding is_oars_key find_mapping
from_csm_age-adjoint_example = from_csm_age-adjoint (codes "violence-cartoon") 5 refl

minimum_age-IsAllowed_example : (13 ≤ 12) ↔ All (IsAllowed 12) game.keys
unfolding is_oars_key find_mapping
minimum_age-IsAllowed_example = minimum_age-IsAllowed game 13 12 game_minimum_age (refl, (refl, _))

format_age-name_at_example :
    (format_age plain_locale System.mda 17
      ≡ name_at
          (take (get_csm_ages System.mda).1 (get_csm_ages System.mda).0)
          (get_formatted_ages plain_locale System.mda)
          17)
    × (length (get_formatted_ages plain_locale System.mda) ≡ (get_csm_ages System.mda).1)
    × ((get_csm_ages System.mda).1 < 7)
format_age-name_at_example = format_age-name_at plain_locale System.mda 17 refl refl
