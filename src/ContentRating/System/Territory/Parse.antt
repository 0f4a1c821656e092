-- ===== src/ContentRating/System/Territory/Parse.antt =====
-- The parts of a locale, and what of it decides the rating system.
use appstream.Base.{
  ℕ, false, ◌==◌, Option, none, some, [], ◌∷◌, ◌++◌, Bytes, ◌≡◌, ◌≢◌, refl, All, All-append, arith,
  str_equal_iff, append-nil,
}
use appstream.ContentRating.System.Territory.{
  cut_last, LocaleParts, parse_locale, system_of_territory, system_from_locale,
}

-- No byte of the string is the separator.
abbrev pub Lacks : ℕ → Bytes → Type 0
Lacks k s = All (λ c. (c == k) ≡ false) s

-- A part that may be left out, with its separator ahead.
abbrev pub part : ℕ → Option Bytes → Bytes
part k none = []
part k (some s) = k ∷ s

abbrev PartLacks : ℕ → Option Bytes → Type 0
PartLacks k none = Unit
PartLacks k (some s) = Lacks k s

cut_last-none : (s : Bytes) (k : ℕ) → Lacks k s → cut_last s k ≡ (s, none)
unfolding cut_last
cut_last-none [] k _ = refl
cut_last-none (c ∷ s) k (l, ls) = ground (arith, l, cut_last-none s k ls)

cut_last-some : (s t : Bytes) (k : ℕ) → Lacks k t → cut_last (s ++ k ∷ t) k ≡ (s, some t)
unfolding cut_last
cut_last-some [] t k l = rw (cut_last-none t k l) (ground arith)
cut_last-some (c ∷ s) t k l = ground (arith, cut_last-some s t k l)

cut_last-part :
    (s : Bytes) (p : Option Bytes) (k : ℕ)
    → Lacks k s
    → PartLacks k p
    → cut_last (s ++ part k p) k ≡ (s, p)
cut_last-part s none k l _ = rw (append-nil s) (cut_last-none s k l)
cut_last-part s (some t) k _ l = cut_last-some s t k l

Lacks-part :
    (k j : ℕ) (s : Bytes) (p : Option Bytes)
    → Lacks k s
    → (j == k) ≡ false
    → PartLacks k p
    → Lacks k (s ++ part j p)
Lacks-part k j s none l _ _ = rw (append-nil s) l
Lacks-part k j s (some t) l e q = All-append (λ c. (c == k) ≡ false) s (j ∷ t) l (e, q)

-- `language[_territory][.codeset][@modifier]`
abbrev locale_text : LocaleParts → Bytes
locale_text p =
    ((p.language ++ part b'_' p.territory) ++ part b'.' p.codeset) ++ part b'@' p.modifier

-- The parts of a locale hold no separator that stands in front of a later part.
record IsLocale (p : LocaleParts) : Type 0 where
  pub language_given : p.language ≢ []
  pub language_bare : Lacks b'@' p.language × Lacks b'.' p.language × Lacks b'_' p.language
  pub territory_bare :
      PartLacks b'@' p.territory × PartLacks b'.' p.territory × PartLacks b'_' p.territory
  pub codeset_bare : PartLacks b'@' p.codeset × PartLacks b'.' p.codeset
  pub modifier_bare : PartLacks b'@' p.modifier

parse_locale-text : (p : LocaleParts) → IsLocale p → parse_locale (locale_text p) ≡ some p
unfolding parse_locale
parse_locale-text p w =
    let stem = p.language ++ part b'_' p.territory in
    let no_at =
      Lacks-part b'@' b'_' p.language p.territory w.language_bare.0 refl w.territory_bare.0 in
    let no_dot =
      Lacks-part b'.' b'_' p.language p.territory w.language_bare.1 refl w.territory_bare.1 in
    rw
      (cut_last-part (stem ++ part b'.' p.codeset) p.modifier b'@'
        (Lacks-part b'@' b'.' stem p.codeset no_at refl w.codeset_bare.0) w.modifier_bare)
      (rw (cut_last-part stem p.codeset b'.' no_dot w.codeset_bare.1) (
        rw (cut_last-part p.language p.territory b'_' w.language_bare.2 w.territory_bare.2)
          (ground (arith, w.language_given, str_equal_iff p.language []))))

-- A locale that is written from its parts is taken apart into them again, and its rating system
-- depends on the territory alone.
system_from_locale-text :
    (p : LocaleParts)
    → IsLocale p
    → (parse_locale (locale_text p) ≡ some p)
      × (system_from_locale (some (locale_text p)) ≡ system_of_territory p.territory)
unfolding system_from_locale
system_from_locale-text p w =
    (parse_locale-text p w, rw (parse_locale-text p w, system_from_locale) refl)
