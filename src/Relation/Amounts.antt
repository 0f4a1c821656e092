-- ===== src/Relation/Amounts.antt =====
-- src/as-relation.c, as_relation_is_satisfied: the checks of the memory and of the display.
pub mod Compare
use appstream.Base.{
  ℕ, Bool, true, false, not, Option, none, [], ◌∷◌, ◌==◌, if◌then◌else◌, ℤ, pos, eqb_ℤ,
}
use appstream.Relation.Kinds.{RelationKind, DisplaySideKind, compare_to_symbols_string}
use appstream.Relation.{Relation, get_value_int, get_value_px}
use appstream.Relation.Check.{
  not_satisfied, satisfied, bad_value, system_not_found, str, gib, px, Message, Verdict, fails, say,
  settled, Checks, finish, to_glong, to_gulong, compare_int_match,
}
use appstream.SystemInfo.{Host, SystemInfo, get_memory_total, get_display_length}

-- The total is handed over as a `glong`, and the number of the relation comes back to its `gint`.
unfoldable pub memory_verdict : Relation → ℤ → ℕ → Verdict
memory_verdict r req current =
    let symbols = str (compare_to_symbols_string r.compare) in
    let both = symbols ∷ gib (to_gulong req) ∷ gib current ∷ [] in
    if not (compare_int_match (to_glong current) r.compare req)
    then elim r.kind [
      | RelationKind.requires ↦
          settled r not_satisfied
            (say "This software requires %s %.2f GiB of memory, but this system has %.2f GiB." both)
      | RelationKind.recommends ↦
          settled r not_satisfied (
            say "This software recommends %s %.2f GiB of memory, but this system has %.2f GiB."
              both)
      | RelationKind.supports ↦
          settled r satisfied (
            say "This software supports %s %.2f GiB of memory."
              (symbols ∷ gib (to_gulong req) ∷ []))
      | RelationKind.unknown ↦ settled r not_satisfied none
    ]
    else settled r satisfied (say "This system has sufficient memory for this software." [])

-- Physical memory
unfoldable pub check_memory : Host → Relation → Checks
check_memory h r s =
    let req = get_value_int r in
    let (s', current) = get_memory_total h s in
    if eqb_ℤ req (pos 0)
    then finish (fails bad_value) s
    else finish (memory_verdict r req current) s'

abbrev is_longest : DisplaySideKind → Bool
is_longest DisplaySideKind.longest = true
is_longest _ = false

-- The message on a display that does not match.
pub display_message : Relation → ℤ → ℕ → Option Message
display_message r req current =
    let args = str (compare_to_symbols_string r.compare) ∷ px (to_gulong req) ∷ px current ∷ [] in
    elim r.kind [
      | RelationKind.requires ↦
          (if is_longest r.display_side_kind
            then say
                "This software requires a display with its longest edge being %s %lu px in size, but the display of this device has %lu px."
                args
            else say
                "This software requires a display with its shortest edge being %s %lu px in size, but the display of this device has %lu px."
                args)
      | RelationKind.recommends ↦
          (if is_longest r.display_side_kind
            then say
                "This software recommends a display with its longest edge being %s %lu px in size, but the display of this device has %lu px."
                args
            else say
                "This software recommends a display with its shortest edge being %s %lu px in size, but the display of this device has %lu px."
                args)
      | _ ↦ none
    ]

-- The display's length against the relation's, behind the checks of the relation.
unfoldable pub display_verdict : Relation → ℤ → SystemInfo → Verdict
display_verdict r req s =
    let current = get_display_length r.display_side_kind s in
    if not s.has_gui
    then settled r not_satisfied (say "This software needs a display for graphical content." [])
    else if current == 0
    then fails system_not_found
    else if not (compare_int_match (to_glong current) r.compare req)
    then settled r not_satisfied (display_message r req current)
    else settled r satisfied (say "Display size is sufficient for this software." [])

abbrev is_unknown_side : DisplaySideKind → Bool
is_unknown_side DisplaySideKind.unknown = true
is_unknown_side _ = false

-- Display length
unfoldable pub check_display_length : Relation → Checks
check_display_length r s =
    let req = get_value_px r in
    if eqb_ℤ req (pos 0)
    then finish (fails bad_value) s
    else if is_unknown_side r.display_side_kind
    then finish (fails bad_value) s
    else finish (display_verdict r req s) s
