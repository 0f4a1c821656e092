-- ===== src/SystemInfo/Display.antt =====
-- The display lengths, and the templates that set them.
use appstream.Base.{ℕ, ◌≡◌, ◌≢◌, refl, some, arith}
use appstream.Relation.Kinds.{DisplaySideKind}
use appstream.SystemInfo.{SystemInfo, get_display_length, set_display_length}
use appstream.SystemInfo.Template.{ChassisKind, desktop_template, new_template_for_chassis}

-- A length that was set for a known side is read back for that side. Setting the longest side also
-- overwrites the shortest; setting the shortest leaves the longest as it was.
display_length-set :
    (s : SystemInfo) (side : DisplaySideKind) (dip : ℕ)
    → side ≢ DisplaySideKind.unknown
    → (get_display_length side (set_display_length side dip s) ≡ dip)
      × (get_display_length DisplaySideKind.shortest
            (set_display_length DisplaySideKind.longest dip s)
          ≡ dip)
      × (get_display_length DisplaySideKind.longest
            (set_display_length DisplaySideKind.shortest dip s)
          ≡ get_display_length DisplaySideKind.longest s)
unfolding get_display_length set_display_length
display_length-set s DisplaySideKind.unknown dip h = absurd (h refl)
display_length-set s _ dip h = (refl, refl, refl)

-- In every template the shortest side of the display is as long as the longest: of the two lengths
-- that a template sets, the first is lost.
template_square :
    (c : ChassisKind) {s : SystemInfo}
    → new_template_for_chassis c ≡ some s
    → get_display_length DisplaySideKind.shortest s ≡ get_display_length DisplaySideKind.longest s
unfolding new_template_for_chassis desktop_template get_display_length
template_square c e = ground arith
