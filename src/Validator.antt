-- ===== src/Validator.antt =====
-- src/as-validator.c: the state of the validator and its list of issues.
pub mod Issues
pub mod Tags
mod Tests
pub mod Description
pub mod Registered
pub mod Markup
pub mod License
pub mod ComponentId
pub mod Text
pub mod Success
pub mod Listing
pub mod Override
use appstream.Base.{
  ℤ, negsuc, Bool, true, false, not, ◌&&◌, ◌||◌, Option, none, some, List, [], ◌∷◌, ◌++◌,
  if◌then◌else◌, Bytes, codes, str_equal,
}
use appstream.Validator.Issues.{Severity, TagData, Issue, Printf, get_location}

-- What the validator reads of the `AsComponent` it works on.
pub record Component : Type 0 where
  pub id : Option Bytes
  pub name : Option Bytes
  pub project_group : Option Bytes
  pub is_merge : Bool
  pub is_desktop_app : Bool

-- `AsValidatorPrivate`, without the list of releases and the connection. The list of tags that
-- `issue_tags` points into is one for all validators, so it is an argument of the operations.
pub record Validator : Type 0 where
  pub issues : List (Bytes × Issue)
  pub issues_per_file : List (Bytes × List Issue)
  pub current_cpt : Option Component
  pub current_fname : Option Bytes
  pub current_dir : Option Bytes
  pub check_urls : Bool
  pub strict : Bool

-- `as_validator_init`
pub new : Validator
new = record {
  issues = [];
  issues_per_file = [];
  current_cpt = none;
  current_fname = none;
  current_dir = none;
  check_urls = false;
  strict = false;
}

-- `g_hash_table_lookup (priv->issue_tags, tag)`: of rows with one tag, the last one replaced the others.
unfoldable pub find_tag : List TagData → Bytes → Option TagData
find_tag [] tag = none
find_tag (d ∷ ds) tag = elim (find_tag ds tag) [
  | some e ↦ some e
  | none ↦ if str_equal d.tag tag then some d else none
]

-- What the loop of `as_validator_init` warns of.
pub has_duplicate : List TagData → Bool
has_duplicate [] = false
has_duplicate (d ∷ ds) = elim (find_tag ds d.tag) [ none ↦ has_duplicate ds | some e ↦ true ]

-- The text of a node with its line, as libxml2 gives it.
pub record Node : Type 0 where
  pub name : Bytes
  pub line : ℤ
  pub value : Option Bytes
  pub value_raw : Option Bytes
  pub lang : Option Bytes

-- A format with its arguments.
abbrev pub Format : Type 0
Format = Bytes × List Bytes

abbrev unknown_tag : Bytes → TagData
unknown_tag tag = record {
  tag = codes "__error__" ++ tag;
  severity = Severity.error;
  explanation =
      "The emitted issue tag is unknown in the tag registry of AppStream. This is a bug in the validator itself, please report this issue in our bugtracker.";
}

-- The tag, severity and explanation of a new issue.
pub tag_data_for : List TagData → Bytes → TagData
tag_data_for tags tag = elim (find_tag tags tag) [
  | none ↦ unknown_tag tag
  | some d ↦ record d { tag = tag }
]

hint_of : Printf → Option Format → Option Bytes
hint_of p none = none
hint_of p (some (format, args)) = some (p.vprintf format args)

line_of : Option Node → ℤ
line_of none = negsuc 0
line_of (some n) = n.line

cid_of : Option Component → Option Bytes
cid_of none = none
cid_of (some c) = c.id

-- The issue that `as_validator_add_issue` makes.
pub make_issue : Printf → List TagData → Option Node → Bytes → Option Format → Validator → Issue
make_issue p tags node tag format v =
    let d = tag_data_for tags tag in
    record {
      tag = d.tag;
      severity = d.severity;
      hint = hint_of p format;
      explanation = d.explanation;
      fname = v.current_fname;
      cid = cid_of v.current_cpt;
      line = line_of node;
    }

-- "%s" of a string that may be NULL
pub hint_text : Option Bytes → Bytes
hint_text none = codes "(null)"
hint_text (some s) = s

-- "%s/%s/%s"
pub issue_key : Printf → Issue → Bytes
issue_key p i = get_location p i ++ codes "/" ++ i.tag ++ codes "/" ++ hint_text i.hint

-- `g_hash_table_insert` on the issues: the new list, and whether the key is new.
pub insert_issue : Bytes → Issue → List (Bytes × Issue) → List (Bytes × Issue) × Bool
insert_issue k i [] = ((k, i) ∷ [], true)
insert_issue k i (e ∷ es) =
    let (rest, is_new) = insert_issue k i es in
    if str_equal e.0 k then ((e.0, i) ∷ es, false) else (e ∷ rest, is_new)

-- Adds the issue to the list of its file.
pub add_to_file : Bytes → Issue → List (Bytes × List Issue) → List (Bytes × List Issue)
add_to_file f i [] = (f, i ∷ []) ∷ []
add_to_file f i (e ∷ es) =
    let rest = add_to_file f i es in if str_equal e.0 f then (e.0, e.1 ++ i ∷ []) ∷ es else e ∷ rest

pub fname_key : Option Bytes → Bytes
fname_key none = []
fname_key (some f) = f

-- Puts an issue into the two maps, as `as_validator_add_issue` ends.
pub register_issue : Printf → Issue → Validator → Validator
register_issue p i v =
    let (issues, is_new) = insert_issue (issue_key p i) i v.issues in
    record v {
      issues = issues;
      issues_per_file =
          if is_new
          then add_to_file (fname_key v.current_fname) i v.issues_per_file
          else v.issues_per_file;
    }

-- `as_validator_add_issue`
pub add_issue : Printf → List TagData → Option Node → Bytes → Option Format → Validator → Validator
add_issue p tags node tag format v = register_issue p (make_issue p tags node tag format v) v

-- The arguments of a call that adds an issue.
pub record Emission : Type 0 where
  pub at : Option Node
  pub tag : Bytes
  pub format : Option Format

-- Calls of `as_validator_add_issue`, one after the other.
pub add_issues : Printf → List TagData → List Emission → Validator → Validator
add_issues p tags [] v = v
add_issues p tags (e ∷ es) v = add_issues p tags es (add_issue p tags e.at e.tag e.format v)

-- `as_validator_set_current_fname` and `as_validator_clear_current_fname`
set_current_fname : Option Bytes → Validator → Validator
set_current_fname f v = record v { current_fname = f }

-- `as_validator_set_current_cpt` and `as_validator_clear_current_cpt`
set_current_cpt : Option Component → Validator → Validator
set_current_cpt c v = record v { current_cpt = c }

-- `as_validator_clear_issues`
pub clear_issues : Validator → Validator
clear_issues v = record v { issues = []; issues_per_file = [] }

-- An issue with which the validation fails.
pub is_fatal : Bool → Severity → Bool
is_fatal true Severity.pedantic = false
is_fatal true s = true
is_fatal false Severity.error = true
is_fatal false Severity.warning = true
is_fatal false s = false

-- The loop of `as_validator_check_success`.
pub check_issues : Bool → List (Bytes × Issue) → Bool
check_issues strict [] = true
check_issues strict (e ∷ es) =
    if is_fatal strict e.1.severity then false else check_issues strict es

-- `as_validator_check_success`
pub check_success : Validator → Bool
check_success v = check_issues v.strict v.issues
