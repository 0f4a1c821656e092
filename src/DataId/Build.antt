-- ===== src/DataId/Build.antt =====
-- What as_utils_build_data_id writes, and what is read from it.
use appstream.Base.{true, Option, none, some, List, [], ◌∷◌, ◌++◌, Bytes, ◌≡◌, refl, ◌∙◌, ap, arith}
use appstream.DataId.Kinds.{Scope, BundleKind, scope_to_string, bundle_kind_to_string}
use appstream.DataId.{
  fix_data_id_part, fix_origin, scope_part, bundle_part, build_data_id, data_id_valid,
  fourth_of_five, data_id_get_cid,
}
use appstream.DataId.Sections.{
  sections, sections-part, sections-slash, split_at_most-sections, IsPart, length-valid,
  valid-length,
}

-- A part that is given has no slash.
abbrev IsOptionalPart : Option Bytes → Type 0
IsOptionalPart none = Unit
IsOptionalPart (some s) = IsPart s

fix-IsPart : (p : Option Bytes) → IsOptionalPart p → IsPart (fix_data_id_part p)
unfolding fix_data_id_part
fix-IsPart none _ = ground arith
fix-IsPart (some []) _ = ground arith
fix-IsPart (some (c ∷ s)) h = h

scope-IsPart : (s : Scope) → IsOptionalPart (scope_part s)
unfolding scope_part scope_to_string
scope-IsPart Scope.unknown = _
scope-IsPart Scope.system = ground arith
scope-IsPart Scope.user = ground arith

bundle-IsPart : (k : BundleKind) → IsOptionalPart (bundle_part k)
unfolding bundle_part bundle_kind_to_string
bundle-IsPart BundleKind.unknown = _
bundle-IsPart BundleKind.package_kind = ground arith
bundle-IsPart BundleKind.limba = ground arith
bundle-IsPart BundleKind.flatpak = ground arith
bundle-IsPart BundleKind.appimage = ground arith
bundle-IsPart BundleKind.snap = ground arith
bundle-IsPart BundleKind.tarball = ground arith
bundle-IsPart BundleKind.cabinet = ground arith
bundle-IsPart BundleKind.linglong = ground arith

origin-IsPart :
    (s : Scope) (k : BundleKind) (o : Option Bytes)
    → IsOptionalPart o
    → IsOptionalPart (fix_origin s k o)
unfolding fix_origin
origin-IsPart Scope.unknown k o h = h
origin-IsPart Scope.user k o h = h
origin-IsPart Scope.system BundleKind.unknown o h = h
origin-IsPart Scope.system BundleKind.package_kind o h = ground arith
origin-IsPart Scope.system BundleKind.limba o h = h
origin-IsPart Scope.system BundleKind.flatpak o h = h
origin-IsPart Scope.system BundleKind.appimage o h = h
origin-IsPart Scope.system BundleKind.snap o h = h
origin-IsPart Scope.system BundleKind.tarball o h = h
origin-IsPart Scope.system BundleKind.cabinet o h = h
origin-IsPart Scope.system BundleKind.linglong o h = h

-- The five sections of a data id that is built.
abbrev built_sections : Scope → BundleKind → Option Bytes → Option Bytes → Option Bytes → List Bytes
built_sections scope kind origin cid branch =
    fix_data_id_part (scope_part scope)
    ∷ fix_data_id_part (bundle_part kind)
    ∷ fix_data_id_part (fix_origin scope kind origin)
    ∷ fix_data_id_part cid
    ∷ fix_data_id_part branch
    ∷ []

sections-five :
    (a b c d e : Bytes)
    → IsPart a
    → IsPart b
    → IsPart c
    → IsPart d
    → IsPart e
    → sections (a ++ b'/' ∷ (b ++ b'/' ∷ (c ++ b'/' ∷ (d ++ b'/' ∷ e)))) ≡ a ∷ b ∷ c ∷ d ∷ e ∷ []
sections-five a b c d e pa pb pc pd pe =
    sections-slash a (b ++ b'/' ∷ (c ++ b'/' ∷ (d ++ b'/' ∷ e))) pa
    ∙ ap (λ r. a ∷ r)
        (sections-slash b (c ++ b'/' ∷ (d ++ b'/' ∷ e)) pb
          ∙ ap (λ r. b ∷ r)
              (sections-slash c (d ++ b'/' ∷ e) pc
                ∙ ap (λ r. c ∷ r) (sections-slash d e pd ∙ ap (λ r. d ∷ r) (sections-part e pe))))

build-sections :
    (scope : Scope) (kind : BundleKind) (origin cid branch : Option Bytes)
    → IsOptionalPart origin
    → IsOptionalPart cid
    → IsOptionalPart branch
    → sections (build_data_id scope kind origin cid branch)
      ≡ built_sections scope kind origin cid branch
unfolding build_data_id
build-sections scope kind origin cid branch o c b =
    sections-five (fix_data_id_part (scope_part scope)) (fix_data_id_part (bundle_part kind))
      (fix_data_id_part (fix_origin scope kind origin)) (fix_data_id_part cid)
      (fix_data_id_part branch) (fix-IsPart (scope_part scope) (scope-IsPart scope))
      (fix-IsPart (bundle_part kind) (bundle-IsPart kind))
      (fix-IsPart (fix_origin scope kind origin) (origin-IsPart scope kind origin o))
      (fix-IsPart cid c) (fix-IsPart branch b)

get_cid-sections :
    (s : Bytes) → data_id_valid (some s) ≡ true → data_id_get_cid s ≡ fourth_of_five (sections s)
unfolding data_id_get_cid fourth_of_five
get_cid-sections [] v = refl
get_cid-sections (c ∷ s) v =
    ap fourth_of_five (split_at_most-sections 4 (c ∷ s) (valid-length (c ∷ s) v))

-- A data id that is built from an origin, a component id and a branch without slashes is valid, and
-- its component id is the one that was given, or the wildcard if none was.
build_data_id-get_cid :
    (scope : Scope) (kind : BundleKind) (origin cid branch : Option Bytes)
    → IsOptionalPart origin
    → IsOptionalPart cid
    → IsOptionalPart branch
    → (data_id_valid (some (build_data_id scope kind origin cid branch)) ≡ true)
      × (data_id_get_cid (build_data_id scope kind origin cid branch) ≡ some (fix_data_id_part cid))
unfolding fourth_of_five
build_data_id-get_cid scope kind origin cid branch o c b =
    let cut = build-sections scope kind origin cid branch o c b in
    let valid = length-valid (build_data_id scope kind origin cid branch) (rw cut refl) in
    (valid, get_cid-sections _ valid ∙ ap fourth_of_five cut)
