-- ===== src/DataId/Kinds.antt =====
-- src/as-component.c and src/as-bundle.c: the scopes and the bundle kinds of components.
use appstream.Base.{Option, Bytes, codes, if◌then◌else◌}
use appstream.Relation.Kinds.{is_text}

-- `AsComponentScope`
pub data Scope : Type 0 where
  unknown system user : Scope

unfoldable pub scope_to_string : Scope → Bytes
scope_to_string Scope.system = codes "system"
scope_to_string Scope.user = codes "user"
scope_to_string Scope.unknown = codes "unknown"

scope_from_string : Option Bytes → Scope
scope_from_string s =
    if is_text s (codes "system")
    then Scope.system
    else if is_text s (codes "user")
    then Scope.user
    else Scope.unknown

-- `AsBundleKind`
pub data BundleKind : Type 0 where
  unknown package_kind limba flatpak appimage snap tarball cabinet linglong : BundleKind

unfoldable pub bundle_kind_to_string : BundleKind → Bytes
bundle_kind_to_string BundleKind.package_kind = codes "package"
bundle_kind_to_string BundleKind.limba = codes "limba"
bundle_kind_to_string BundleKind.flatpak = codes "flatpak"
bundle_kind_to_string BundleKind.appimage = codes "appimage"
bundle_kind_to_string BundleKind.snap = codes "snap"
bundle_kind_to_string BundleKind.tarball = codes "tarball"
bundle_kind_to_string BundleKind.cabinet = codes "cabinet"
bundle_kind_to_string BundleKind.linglong = codes "linglong"
bundle_kind_to_string BundleKind.unknown = codes "unknown"

bundle_kind_from_string : Option Bytes → BundleKind
bundle_kind_from_string s =
    if is_text s (codes "package")
    then BundleKind.package_kind
    else if is_text s (codes "limba")
    then BundleKind.limba
    else if is_text s (codes "flatpak")
    then BundleKind.flatpak
    else if is_text s (codes "appimage")
    then BundleKind.appimage
    else if is_text s (codes "snap")
    then BundleKind.snap
    else if is_text s (codes "tarball")
    then BundleKind.tarball
    else if is_text s (codes "cabinet")
    then BundleKind.cabinet
    else if is_text s (codes "linglong")
    then BundleKind.linglong
    else BundleKind.unknown
