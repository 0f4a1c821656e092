-- ===== src/Compose/Tests.antt =====
-- Runs of the composer, and its theorems at concrete results.
use appstream.Base.{
  Bytes, Option, ltb, length, arith, arith, Bool, none, some, List, [], ◌∷◌, codes, ◌≡◌, refl, ◌&&◌,
  ◌==◌, ltb, if◌then◌else◌,
}
use appstream.Validator.Issues.{Severity}
use appstream.Pool.Kinds.{ComponentKind, MergeKind}
use appstream.Compose.IconPolicy.{
  IconState, PolicyEntry, IsPolicy, set_policy, state_of, set_policy-IsPolicy,
}
use appstream.Compose.Result.{is_some, build_gcid, Heap, Result, Library, new, find, add_component}
use appstream.Compose.Result.Hints.{IsResult}
use appstream.Compose.Result.Registered.{IsAdded, add_component-IsAdded}

abbrev one_entry : List PolicyEntry
one_entry = record { size = 64; scale = 1; state = IconState.cached_only } ∷ []

set_policy-IsPolicy_example :
    IsPolicy (set_policy 64 0 IconState.ignored one_entry)
    × (state_of (set_policy 64 0 IconState.ignored one_entry) 64 1 ≡ (
        if 64 == 64 && (if ltb 0 1 then 1 else 0) == 1
        then some IconState.ignored
        else state_of one_entry 64 1))
set_policy-IsPolicy_example =
    set_policy-IsPolicy 64 0 64 1 IconState.ignored one_entry (refl, ground arith, _)

abbrev plain_library : Library
plain_library = record {
  md5 = λ s. s;
  utf8_strdown = λ s. s;
  utf8_substring = λ s i j. s;
  tld_list = none;
  hint_severity = λ tag. some Severity.error;
}

abbrev same_app : Heap
same_app a = record {
  id = codes "org.example.App";
  kind = ComponentKind.desktop_app;
  merge_kind = MergeKind.no_merge;
  pkgnames = [];
  bundles = [];
}

new-IsResult : IsResult plain_library same_app new
unfolding new find
new-IsResult cid a found = absurd (cc)

add_component-IsAdded_example :
    IsAdded plain_library same_app 1 new (add_component plain_library same_app 1 (codes "data") new)
    × ((cid : Bytes) (hash : Option Bytes)
        → is_some (build_gcid plain_library cid hash) ≡ ltb 2 (length cid))
add_component-IsAdded_example =
    add_component-IsAdded plain_library same_app 1 (codes "data") new new-IsResult

abbrev one_added : Heap × Result × Bool
one_added = add_component plain_library same_app 1 (codes "data") new
