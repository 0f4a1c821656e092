-- ===== src/Spdx/Free.antt =====
-- src/as-spdx.c: as_license_is_free_license.
use appstream.Base.{
  Bool, true, false, not, ◌&&◌, ◌||◌, Option, none, some, List, [], ◌∷◌, ◌++◌, ◌==◌, if◌then◌else◌,
  Bytes, codes, str_equal, ◌≡◌, ◌⊎◌,
}
use appstream.Spdx.{Tables, has_prefix, is_spdx_license_exception_id, tokenize}

-- `g_strstr_len (s, -1, key) != NULL`
abbrev pub contains : Bytes → Bytes → Bool
contains [] key = has_prefix [] key
contains (c ∷ s) key = has_prefix (c ∷ s) key || contains s key

abbrev is_operator_token : Bytes → Bool
is_operator_token w =
    str_equal w (codes "&")
    || str_equal w (codes "+")
    || str_equal w (codes "|")
    || str_equal w (codes "^")
    || str_equal w (codes "(")
    || str_equal w (codes ")")

-- The search for a line of the list of free licenses, which is one text.
abbrev is_free_id : Bytes → Bytes → Bool
is_free_id free s = contains free (b'\n' ∷ (s ++ b'\n' ∷ []))

-- The tests behind the ones for special ids.
unfoldable pub is_free_word : Tables → Bytes → Bytes → Bool
is_free_word t free [] = false
is_free_word t free (c ∷ s) =
    if not (c == b'@')
    then false
    else if is_spdx_license_exception_id t (some s)
    then true
    else is_free_id free s

-- One round of the loop; `false` is the break.
unfoldable pub is_free_token : Tables → Bytes → Bytes → Bool
is_free_token t free w =
    if is_operator_token w
    then true
    else if has_prefix w (codes "@LicenseRef")
    then (if not (has_prefix w (codes "@LicenseRef-free")) then false else is_free_word t free w)
    else if has_prefix w (codes "@NOASSERTION") || has_prefix w (codes "@NONE")
    then false
    else is_free_word t free w

unfoldable pub are_free_tokens : Tables → Bytes → List Bytes → Bool
are_free_tokens t free [] = true
are_free_tokens t free (w ∷ ws) = is_free_token t free w && are_free_tokens t free ws

-- `as_license_is_free_license`; `free` is the text of data/spdx-free-license-ids.txt.
unfoldable pub is_free_license : Tables → Bytes → Option Bytes → Bool
is_free_license t free none = false
is_free_license t free (some s) =
    if str_equal s []
    then false
    else if str_equal s (codes "NONE")
    then false
    else elim (tokenize t (some s)) [ none ↦ false | some ws ↦ are_free_tokens t free ws ]

-- A reference that is not said to be free, or no license at all.
abbrev pub is_refused : Bytes → Bool
is_refused w =
    if has_prefix w (codes "@LicenseRef")
    then not (has_prefix w (codes "@LicenseRef-free"))
    else has_prefix w (codes "@NOASSERTION") || has_prefix w (codes "@NONE")

-- An operator, or the id of an exception or of a listed license, and none that is refused.
abbrev pub IsFree : Tables → Bytes → Bytes → Type 0
IsFree t free w =
    (is_operator_token w ≡ true)
    ⊎ ((s : Bytes) × (w ≡ b'@' ∷ s)
        × (is_refused w ≡ false)
        × ((is_spdx_license_exception_id t (some s) ≡ true) ⊎ (is_free_id free s ≡ true)))

-- An id behind the tests, by what the tests say.
IsFreeId : Tables → Bytes → Bytes → Type 0
IsFreeId t free w =
    (s : Bytes) × (w ≡ b'@' ∷ s)
    × ((is_spdx_license_exception_id t (some s) ≡ true) ⊎ (is_free_id free s ≡ true))
