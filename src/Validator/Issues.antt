-- ===== src/Validator/Issues.antt =====
-- src/as-validator-issue.c and its header: one issue, with its place in a file.
use appstream.Base.{
  ℕ, ℤ, pos, negsuc, Option, none, some, List, [], ◌++◌, if◌then◌else◌, Bytes, codes, str_equal,
}
use Prim.Native.String.{String}

-- `AsIssueSeverity`, without `AS_ISSUE_SEVERITY_LAST`
pub data Severity : Type 0 where
  unknown : Severity
  pedantic : Severity
  info : Severity
  warning : Severity
  error : Severity

-- `as_issue_severity_from_string`
severity_from_string : Bytes → Severity
severity_from_string s =
    if str_equal s (codes "error")
    then Severity.error
    else if str_equal s (codes "warning")
    then Severity.warning
    else if str_equal s (codes "info")
    then Severity.info
    else if str_equal s (codes "pedantic")
    then Severity.pedantic
    else Severity.unknown

-- `as_issue_severity_to_string`
severity_to_string : Severity → Option Bytes
severity_to_string Severity.error = some (codes "error")
severity_to_string Severity.warning = some (codes "warning")
severity_to_string Severity.info = some (codes "info")
severity_to_string Severity.pedantic = some (codes "pedantic")
severity_to_string Severity.unknown = none

-- `AsValidatorIssueTag`
pub record TagData : Type 0 where
  pub tag : Bytes
  pub severity : Severity
  pub explanation : String

-- `AsValidatorIssuePrivate`
pub record Issue : Type 0 where
  pub tag : Bytes
  pub severity : Severity
  pub hint : Option Bytes
  pub explanation : String
  pub fname : Option Bytes
  pub cid : Option Bytes
  pub line : ℤ

-- What is printed by the C library: `vprintf format args`, and a number for "%li".
pub record Printf : Type 0 where
  pub vprintf : Bytes → List Bytes → Bytes
  pub print_long : ℕ → Bytes

fname_text : Option Bytes → Bytes
fname_text none = codes "~"
fname_text (some s) = s

cid_text : Option Bytes → Bytes
cid_text none = codes ":~"
cid_text (some s) = codes ":" ++ s

-- A negative line is left out.
line_text : Printf → ℤ → Bytes
line_text p (pos n) = codes ":" ++ p.print_long n
line_text p (negsuc n) = []

-- `as_validator_issue_get_location`
pub get_location : Printf → Issue → Bytes
get_location p i = fname_text i.fname ++ cid_text i.cid ++ line_text p i.line
