-- ===== src/Vercmp/Tests.antt =====
-- Runs of as_vercmp, and its theorems at concrete versions.
use Prim.Native.String.{String}
use appstream.Base.{
  true, false, Option, some, ◌≡◌, refl, Bytes, codes, arith, ◌++◌, ◌∷◌, ◌==◌, if◌then◌else◌,
  str_equal_iff,
}
use appstream.Vercmp.Flip.{flip_outcome}
use appstream.Vercmp.Number.{number, sign_of, cmp_number-sign_of}
use appstream.Vercmp.Order.{vercmp_flip}
use appstream.Vercmp.OverRead.{vercmp_over_read}
use appstream.Vercmp.Prefix.{vercmp_suffix}
use appstream.Vercmp.Total.{vercmp_total, Ends, vercmp-Ends}
use appstream.Vercmp.{
  Sign, less, same, more, value, over_read, cmp_number, version_parse, vercmp, vercmp_strings,
  single_epochs, compare_parsed, compare_versions, run_part, cmp_part, scan, digit_loop,
  number_tail, keep_first, choose, compare_revisions,
}

abbrev t : String → Option Bytes
t s = some (codes s)

order_of_releases :
    (vercmp false (t "1.2.3") (t "1.10.0") ≡ value less)
    × (vercmp false (t "1:0.9") (t "2.0") ≡ value more)
    × (vercmp true (t "1:0.9") (t "2.0") ≡ value less)
    × (vercmp false (t "1.0-1") (t "1.0-2") ≡ value less)
    × (vercmp false (t "1.0") (t "1.00") ≡ value same)
    × (vercmp false (t "0.4a6") (t "0.4") ≡ value more)
unfolding vercmp vercmp_strings single_epochs compare_parsed version_parse compare_versions run_part
    cmp_part scan cmp_number digit_loop number_tail keep_first choose compare_revisions
order_of_releases = (refl, refl, refl, refl, refl, refl)

vercmp_flip_example :
    vercmp false (t "1.0~rc1") (t "1.0") ≡ flip_outcome (vercmp false (t "1.0") (t "1.0~rc1"))
vercmp_flip_example = vercmp_flip false (t "1.0") (t "1.0~rc1")

vercmp_total_example : (r : Sign) × (vercmp false (t "1:2.0-3") (t "2.0") ≡ value r)
unfolding version_parse
vercmp_total_example = vercmp_total false (t "1:2.0-3") (t "2.0") (omega arith) (omega arith)

vercmp-Ends_example : Ends (t "1-2:3") (t "1.0") (vercmp true (t "1-2:3") (t "1.0"))
vercmp-Ends_example = vercmp-Ends true (t "1-2:3") (t "1.0")

cmp_number-sign_of_example :
    (cmp_number (codes "0012") (codes "9a")).res
    ≡ sign_of (number (codes "0012")) (number (codes "9a"))
cmp_number-sign_of_example = cmp_number-sign_of (codes "0012") (codes "9a")

vercmp_suffix_example :
    vercmp false (some (codes "1.0" ++ b'~' ∷ codes "rc1")) (some (codes "1.0"))
    ≡ value (if b'~' == b'~' then less else more)
vercmp_suffix_example =
    vercmp_suffix false (codes "1.0") b'~' (codes "rc1") (refl, refl) (refl, refl) refl

vercmp_over_read_example :
    vercmp true (some (codes "1-2" ++ b':' ∷ codes "3")) (some (codes "4-2" ++ b':' ∷ codes "3"))
    ≡ over_read
vercmp_over_read_example =
    vercmp_over_read (codes "1-2") (codes "4-2") (codes "3") refl refl refl refl refl
      (λ e. cc ((str_equal_iff _ _).1 e))
