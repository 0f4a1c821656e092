-- ===== src/Spdx/Expression.antt =====
-- src/as-spdx.c: as_is_spdx_license_expression and as_license_is_metadata_license.
pub mod Accept
pub mod Metadata
use appstream.Base.{
  ℕ, Bool, true, false, not, ◌&&◌, ◌||◌, Option, none, some, List, [], ◌∷◌, ◌==◌, if◌then◌else◌,
  Bytes, codes, str_equal, suc, zero, ltb,
}
use appstream.Spdx.{Tables, is_listed, is_spdx_license_id, is_spdx_license_exception_id, tokenize}

-- The tests behind the ones for `@`; the result is `expect_exception`, or `none` for the return of
-- FALSE.
pub accept_plain : Tables → Bool → Bytes → Option Bool
accept_plain t expect s =
    if is_spdx_license_id t (some s)
    then some expect
    else if str_equal s (codes "&")
        || str_equal s (codes "|")
        || str_equal s (codes "+")
        || str_equal s (codes "(")
        || str_equal s (codes ")")
    then some expect
    else if str_equal s (codes "^")
    then some true
    else none

-- One round of the loop over the tokens.
pub accept_token : Tables → Bool → Bytes → Option Bool
accept_token t expect [] = accept_plain t expect []
accept_token t expect (c ∷ s) =
    if not (c == b'@')
    then accept_plain t expect (c ∷ s)
    else if (if expect
        then is_spdx_license_exception_id t (some s)
        else is_spdx_license_id t (some s))
    then some false
    else accept_plain t false (c ∷ s)

pub accept_tokens : Tables → Bool → List Bytes → Bool
accept_tokens t expect [] = true
accept_tokens t expect (a ∷ ws) = elim (accept_token t expect a) [
  | none ↦ false
  | some next ↦ accept_tokens t next ws
]

-- `as_is_spdx_license_expression`
pub is_spdx_license_expression : Tables → Option Bytes → Bool
is_spdx_license_expression t none = false
is_spdx_license_expression t (some s) =
    if str_equal s []
    then false
    else if str_equal s (codes "NONE")
    then true
    else if str_equal s (codes "NOASSERTION")
    then true
    else elim (tokenize t (some s)) [ none ↦ false | some ts ↦ accept_tokens t false ts ]

abbrev metadata_licenses : List Bytes
metadata_licenses =
    codes "@FSFAP"
    ∷ codes "@MIT"
    ∷ codes "@0BSD"
    ∷ codes "@CC0-1.0"
    ∷ codes "@CC-BY-3.0"
    ∷ codes "@CC-BY-4.0"
    ∷ codes "@CC-BY-SA-3.0"
    ∷ codes "@CC-BY-SA-4.0"
    ∷ codes "@GFDL-1.1"
    ∷ codes "@GFDL-1.2"
    ∷ codes "@GFDL-1.3"
    ∷ codes "@BSL-1.0"
    ∷ codes "@FTL"
    ∷ codes "@FSFUL"
    ∷ codes "&"
    ∷ codes "|"
    ∷ codes "+"
    ∷ []

-- `as_license_is_metadata_license_id`; the operators count as fine.
pub is_metadata_license_id : Bytes → Bool
is_metadata_license_id s = is_listed metadata_licenses s

-- The variables of the loop in `as_license_is_metadata_license`.
pub record Counts : Type 0 where
  pub requires_all_tokens : Bool
  pub license_bad_cnt : ℕ
  pub license_good_cnt : ℕ

unfoldable pub count_token : Bytes → Counts → Counts
count_token s n =
    if str_equal s (codes "+")
    then n
    else if str_equal s (codes "|")
    then record n { requires_all_tokens = false }
    else if str_equal s (codes "&")
    then record n { requires_all_tokens = true }
    else if is_metadata_license_id s
    then record n { license_good_cnt = suc n.license_good_cnt }
    else record n { license_bad_cnt = suc n.license_bad_cnt }

unfoldable pub count_tokens : List Bytes → Counts → Counts
count_tokens [] n = n
count_tokens (a ∷ ws) n = count_tokens ws (count_token a n)

abbrev pub no_counts : Counts
no_counts = record { requires_all_tokens = true; license_bad_cnt = 0; license_good_cnt = 0 }

unfoldable pub any_bracket : List Bytes → Bool
any_bracket [] = false
any_bracket (a ∷ ws) = str_equal a (codes "(") || str_equal a (codes ")") || any_bracket ws

-- The verdict from the counts.
unfoldable pub counts_verdict : Counts → Bool
counts_verdict n =
    if not n.requires_all_tokens && ltb 0 n.license_good_cnt
    then true
    else n.requires_all_tokens && n.license_bad_cnt == 0

unfoldable pub is_metadata_tokens : List Bytes → Bool
is_metadata_tokens ts = if any_bracket ts then false else counts_verdict (count_tokens ts no_counts)

-- `as_license_is_metadata_license`
unfoldable pub is_metadata_license : Tables → Option Bytes → Bool
is_metadata_license t s = elim (tokenize t s) [ none ↦ false | some ts ↦ is_metadata_tokens ts ]
