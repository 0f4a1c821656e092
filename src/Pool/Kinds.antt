-- ===== src/Pool/Kinds.antt =====
-- src/as-component.c, its header and src/as-component-private.h: kinds of components, of merges and of
-- origins.
use appstream.Base.{Option, none, some, Bytes, codes, if◌then◌else◌, str_equal, ◌≡◌, refl}

-- `AsComponentKind`
pub data ComponentKind : Type 0 where
  unknown generic desktop_app console_app web_app service addon operating_system runtime font codec
        input_method firmware driver localization repository icon_theme :
      ComponentKind

-- `as_component_kind_to_string`
component_kind_to_string : ComponentKind → Bytes
component_kind_to_string ComponentKind.generic = codes "generic"
component_kind_to_string ComponentKind.desktop_app = codes "desktop-application"
component_kind_to_string ComponentKind.console_app = codes "console-application"
component_kind_to_string ComponentKind.web_app = codes "web-application"
component_kind_to_string ComponentKind.addon = codes "addon"
component_kind_to_string ComponentKind.font = codes "font"
component_kind_to_string ComponentKind.codec = codes "codec"
component_kind_to_string ComponentKind.input_method = codes "inputmethod"
component_kind_to_string ComponentKind.firmware = codes "firmware"
component_kind_to_string ComponentKind.driver = codes "driver"
component_kind_to_string ComponentKind.localization = codes "localization"
component_kind_to_string ComponentKind.service = codes "service"
component_kind_to_string ComponentKind.repository = codes "repository"
component_kind_to_string ComponentKind.operating_system = codes "operating-system"
component_kind_to_string ComponentKind.icon_theme = codes "icon-theme"
component_kind_to_string ComponentKind.runtime = codes "runtime"
component_kind_to_string ComponentKind.unknown = codes "unknown"

-- `as_component_kind_from_string`, on a string
component_kind_from_text : Bytes → ComponentKind
component_kind_from_text s =
    if str_equal s (codes "generic")
    then ComponentKind.generic
    else if str_equal s (codes "desktop-application")
    then ComponentKind.desktop_app
    else if str_equal s (codes "console-application")
    then ComponentKind.console_app
    else if str_equal s (codes "web-application")
    then ComponentKind.web_app
    else if str_equal s (codes "addon")
    then ComponentKind.addon
    else if str_equal s (codes "font")
    then ComponentKind.font
    else if str_equal s (codes "codec")
    then ComponentKind.codec
    else if str_equal s (codes "inputmethod")
    then ComponentKind.input_method
    else if str_equal s (codes "firmware")
    then ComponentKind.firmware
    else if str_equal s (codes "driver")
    then ComponentKind.driver
    else if str_equal s (codes "localization")
    then ComponentKind.localization
    else if str_equal s (codes "service")
    then ComponentKind.service
    else if str_equal s (codes "repository")
    then ComponentKind.repository
    else if str_equal s (codes "operating-system")
    then ComponentKind.operating_system
    else if str_equal s (codes "icon-theme")
    then ComponentKind.icon_theme
    else if str_equal s (codes "runtime")
    then ComponentKind.runtime
    else if str_equal s (codes "desktop")
    then ComponentKind.desktop_app
    else ComponentKind.unknown

-- `as_component_kind_from_string`
component_kind_from_string : Option Bytes → ComponentKind
component_kind_from_string none = ComponentKind.generic
component_kind_from_string (some s) = component_kind_from_text s

-- `AsMergeKind`
pub data MergeKind : Type 0 where
  no_merge replace append remove_component : MergeKind

-- `as_merge_kind_to_string`
merge_kind_to_string : MergeKind → Bytes
merge_kind_to_string MergeKind.no_merge = codes "none"
merge_kind_to_string MergeKind.replace = codes "replace"
merge_kind_to_string MergeKind.append = codes "append"
merge_kind_to_string MergeKind.remove_component = codes "remove-component"

-- `as_merge_kind_from_string`
merge_kind_from_string : Bytes → MergeKind
merge_kind_from_string s =
    if str_equal s (codes "replace")
    then MergeKind.replace
    else if str_equal s (codes "append")
    then MergeKind.append
    else if str_equal s (codes "remove-component")
    then MergeKind.remove_component
    else MergeKind.no_merge

-- `AsOriginKind`
pub data OriginKind : Type 0 where
  origin_unknown metainfo catalog desktop_entry : OriginKind

-- Reading a kind back from its text gives the kind, for components and for merges.
kinds_of_components-from-to :
    (k : ComponentKind) (m : MergeKind)
    → (component_kind_from_string (some (component_kind_to_string k)) ≡ k)
      × (merge_kind_from_string (merge_kind_to_string m) ≡ m)
unfolding component_kind_from_string component_kind_from_text component_kind_to_string
    merge_kind_from_string merge_kind_to_string
kinds_of_components-from-to k m = (component k, merge m)
  where
    component :
        (k : ComponentKind) → component_kind_from_string (some (component_kind_to_string k)) ≡ k
    component ComponentKind.unknown = refl
    component ComponentKind.generic = refl
    component ComponentKind.desktop_app = refl
    component ComponentKind.console_app = refl
    component ComponentKind.web_app = refl
    component ComponentKind.service = refl
    component ComponentKind.addon = refl
    component ComponentKind.operating_system = refl
    component ComponentKind.runtime = refl
    component ComponentKind.font = refl
    component ComponentKind.codec = refl
    component ComponentKind.input_method = refl
    component ComponentKind.firmware = refl
    component ComponentKind.driver = refl
    component ComponentKind.localization = refl
    component ComponentKind.repository = refl
    component ComponentKind.icon_theme = refl

    merge : (m : MergeKind) → merge_kind_from_string (merge_kind_to_string m) ≡ m
    merge MergeKind.no_merge = refl
    merge MergeKind.replace = refl
    merge MergeKind.append = refl
    merge MergeKind.remove_component = refl
