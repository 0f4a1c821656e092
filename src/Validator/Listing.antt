-- ===== src/Validator/Listing.antt =====
-- src/as-validator.c: the list of issues, and the list of each file, as issues are added.
use appstream.Base.{
  ℕ, ◌+◌, Bool, true, false, ◌||◌, List, [], ◌∷◌, Bytes, str_equal, ◌≡◌, All, length,
}
use appstream.Validator.Issues.{Issue, Printf}
use appstream.Validator.{Validator, issue_key, fname_key}

abbrev pub has_key : List (Bytes × Issue) → Bytes → Bool
has_key [] k = false
has_key (e ∷ es) k = str_equal e.0 k || has_key es k

-- Every key stands once, and is the key of its issue.
abbrev IsKeyed : Printf → List (Bytes × Issue) → Type 0
IsKeyed p [] = Unit
IsKeyed p (e ∷ es) = (e.0 ≡ issue_key p e.1) × (has_key es e.0 ≡ false) × IsKeyed p es

abbrev has_file : List (Bytes × List Issue) → Bytes → Bool
has_file [] f = false
has_file (e ∷ es) f = str_equal e.0 f || has_file es f

abbrev IsOfFile : Bytes → Issue → Type 0
IsOfFile f i = fname_key i.fname ≡ f

-- Every file stands once, with issues of that file.
abbrev IsByFile : List (Bytes × List Issue) → Type 0
IsByFile [] = Unit
IsByFile (e ∷ es) = All (IsOfFile e.0) e.1 × (has_file es e.0 ≡ false) × IsByFile es

abbrev pub lists : Printf → List Issue → Bytes → Bool
lists p [] k = false
lists p (i ∷ is) k = str_equal (issue_key p i) k || lists p is k

-- An issue with the key is listed for some file.
abbrev is_filed : Printf → List (Bytes × List Issue) → Bytes → Bool
is_filed p [] k = false
is_filed p (e ∷ es) k = lists p e.1 k || is_filed p es k

abbrev pub count : List (Bytes × List Issue) → ℕ
count [] = 0
count (e ∷ es) = length e.1 + count es

-- The two maps of a validator tell of the same issues.
pub record IsListing (p : Printf) (v : Validator) : Type 0 where
  pub keyed : IsKeyed p v.issues
  pub by_file : IsByFile v.issues_per_file
  pub same : (k : Bytes) → has_key v.issues k ≡ is_filed p v.issues_per_file k
  pub counted : length v.issues ≡ count v.issues_per_file

-- No issue in the list, and none for any file.
pub record IsCleared (v : Validator) : Type 0 where
  pub no_issues : v.issues ≡ []
  pub no_files : v.issues_per_file ≡ []

-- The issue of a call is in the list of a validator, under its key.
abbrev pub HasIssue : Printf → Issue → Validator → Type 0
HasIssue p i v = has_key v.issues (issue_key p i) ≡ true
