-- ===== src/Compose/IconPolicy.antt =====
-- compose/asc-icon-policy.c: what is to be done with the icons of each size.
use appstream.Base.{
  ℕ, zero, suc, ◌+◌, ◌≤◌, Bool, false, ◌&&◌, ◌||◌, Option, none, some, List, [], ◌∷◌, ◌++◌, ◌==◌,
  ltb, if◌then◌else◌, ◌≡◌, refl, arith, Bool-cases, inl, inr, length, append-nil, append_assoc,
  length-append, ap, ◌∙◌,
}

-- `AscIconState`
pub data IconState : Type 0 where
  ignored cached_remote cached_only remote_only : IconState

-- `AscIconPolicyEntry`
pub record PolicyEntry : Type 0 where
  pub size : ℕ
  pub scale : ℕ
  pub state : IconState

unfoldable pub is_for : ℕ → ℕ → PolicyEntry → Bool
is_for size scale e = e.size == size && e.scale == scale

-- The loop of `asc_icon_policy_set_policy`, and the entry it adds where it found none.
put_state : ℕ → ℕ → IconState → List PolicyEntry → List PolicyEntry
put_state size scale state [] = record { size = size; scale = scale; state = state } ∷ []
put_state size scale state (e ∷ es) =
    let rest = put_state size scale state es in
    if is_for size scale e then record e { state = state } ∷ es else e ∷ rest

-- The scale 0 stands for 1.
fix_scale : ℕ → ℕ
fix_scale scale = if ltb scale 1 then 1 else scale

-- `asc_icon_policy_set_policy`
pub set_policy : ℕ → ℕ → IconState → List PolicyEntry → List PolicyEntry
set_policy size scale state es = put_state size (fix_scale scale) state es

-- `asc_icon_policy_init`
default_policy : List PolicyEntry
default_policy = set_policy 128 2 IconState.cached_remote (
    set_policy 128 1 IconState.cached_remote (
      set_policy 64 2 IconState.cached_only (
        set_policy 64 1 IconState.cached_only
          (set_policy 48 2 IconState.cached_only (set_policy 48 1 IconState.cached_only [])))))

-- `RealIconPolicyIter`
record Iter : Type 0 where
  pub entries : List PolicyEntry
  pub pos : ℕ

-- `asc_icon_policy_iter_init`
iter_init : List PolicyEntry → Iter
iter_init es = record { entries = es; pos = 0 }

-- `g_ptr_array_index`, within the array
entry_at : List PolicyEntry → ℕ → Option PolicyEntry
entry_at [] n = none
entry_at (e ∷ es) zero = some e
entry_at (e ∷ es) (suc n) = entry_at es n

-- `asc_icon_policy_iter_next`: the entry it writes out, or `none` where it returns FALSE.
iter_next : Iter → Iter × Option PolicyEntry
iter_next i = elim (entry_at i.entries i.pos) [
  | none ↦ (i, none)
  | some e ↦ (record i { pos = i.pos + 1 }, some e)
]

-- A loop on `asc_icon_policy_iter_next` that ends with FALSE, or with the fuel.
iterate : ℕ → Iter → List PolicyEntry
iterate zero i = []
iterate (suc n) i =
    let (j, found) = iter_next i in elim found [ none ↦ [] | some e ↦ e ∷ iterate n j ]

-- The state for a size and a scale.
abbrev pub state_of : List PolicyEntry → ℕ → ℕ → Option IconState
state_of [] size scale = none
state_of (e ∷ es) size scale = if is_for size scale e then some e.state else state_of es size scale

abbrev has_entry : List PolicyEntry → ℕ → ℕ → Bool
has_entry [] size scale = false
has_entry (e ∷ es) size scale = is_for size scale e || has_entry es size scale

-- Every size with its scale stands once, and no scale is 0.
abbrev pub IsPolicy : List PolicyEntry → Type 0
IsPolicy [] = Unit
IsPolicy (e ∷ es) = (has_entry es e.size e.scale ≡ false) × (1 ≤ e.scale) × IsPolicy es

has_entry-put :
    (size scale a b : ℕ) (state : IconState) (es : List PolicyEntry)
    → has_entry (put_state size scale state es) a b ≡ (has_entry es a b || size == a && scale == b)
unfolding put_state is_for
has_entry-put size scale a b state [] = ground arith
has_entry-put size scale a b state (e ∷ es) = ground (arith, has_entry-put size scale a b state es)

put_state-IsPolicy :
    (size scale : ℕ) (state : IconState) (es : List PolicyEntry)
    → 1 ≤ scale
    → IsPolicy es
    → IsPolicy (put_state size scale state es)
unfolding put_state is_for
put_state-IsPolicy size scale state [] given _ = (refl, given, _)
put_state-IsPolicy size scale state (e ∷ es) given (single, scaled, rest) =
    elim (Bool-cases (is_for size scale e)) [
      | inl same ↦ rw (same, put_state) (single, scaled, rest)
      | inr other ↦
          rw (other, put_state)
            (
              ground (arith, single, other, has_entry-put size scale e.size e.scale state es),
              scaled,
              put_state-IsPolicy size scale state es given rest,
            )
    ]

put_state-state_of :
    (size scale a b : ℕ) (state : IconState) (es : List PolicyEntry)
    → state_of (put_state size scale state es) a b
      ≡ (if size == a && scale == b then some state else state_of es a b)
unfolding put_state is_for
put_state-state_of size scale a b state [] = ground arith
put_state-state_of size scale a b state (e ∷ es) =
    ground (arith, put_state-state_of size scale a b state es)

-- Setting a policy keeps every size with its scale single and no scale at 0, sets the state for that
-- size and scale, a scale of 0 standing for 1, and leaves every other one as it was.
pub set_policy-IsPolicy :
    (size scale a b : ℕ) (state : IconState) (es : List PolicyEntry)
    → IsPolicy es
    → IsPolicy (set_policy size scale state es)
      × (state_of (set_policy size scale state es) a b ≡ (
          if size == a && (if ltb scale 1 then 1 else scale) == b
          then some state
          else state_of es a b))
unfolding set_policy fix_scale
set_policy-IsPolicy size scale a b state es policy = (
  put_state-IsPolicy size (fix_scale scale) state es (ground arith) policy,
  put_state-state_of size (fix_scale scale) a b state es,
)

entry_at-behind :
    (ds : List PolicyEntry) (e : PolicyEntry) (es : List PolicyEntry)
    → entry_at (ds ++ e ∷ es) (length ds) ≡ some e
unfolding entry_at
entry_at-behind [] e es = refl
entry_at-behind (d ∷ ds) e es = entry_at-behind ds e es

entry_at-end : (ds : List PolicyEntry) → entry_at ds (length ds) ≡ none
unfolding entry_at
entry_at-end [] = refl
entry_at-end (d ∷ ds) = entry_at-end ds

iter_next-some :
    (i : Iter) (e : PolicyEntry)
    → entry_at i.entries i.pos ≡ some e
    → iter_next i ≡ (record i { pos = i.pos + 1 }, some e)
unfolding iter_next
iter_next-some i e found = rw (found, iter_next) refl

iterate-some :
    (n : ℕ) (i : Iter) (e : PolicyEntry)
    → entry_at i.entries i.pos ≡ some e
    → iterate (suc n) i ≡ e ∷ iterate n (record i { pos = i.pos + 1 })
unfolding iterate
iterate-some n i e found =
    rw (iter_next-some i e found, iterate)
      (ap (λ (p : Iter × Option PolicyEntry). e ∷ iterate n p.0) (iter_next-some i e found))

iterate-none : (n : ℕ) (i : Iter) → entry_at i.entries i.pos ≡ none → iterate (suc n) i ≡ []
unfolding iterate iter_next
iterate-none n i missing = rw (missing, iterate, iter_next) refl

-- The iterator behind one more entry.
one_more : List PolicyEntry → PolicyEntry → List PolicyEntry → Iter
one_more ds e es = record { entries = ds ++ e ∷ es; pos = length ds + 1 }

one_more-append :
    (ds : List PolicyEntry) (e : PolicyEntry) (es : List PolicyEntry)
    → one_more ds e es ≡ record { entries = (ds ++ e ∷ []) ++ es; pos = length (ds ++ e ∷ []) }
unfolding one_more
one_more-append ds e es = rw (append_assoc ds (e ∷ []) es) (rw (length-append ds (e ∷ [])) refl)

iterate-behind :
    (ds es : List PolicyEntry)
    → iterate (suc (length es)) (record { entries = ds ++ es; pos = length ds }) ≡ es
unfolding one_more
iterate-behind ds [] =
    iterate-none 0 (record { entries = ds ++ []; pos = length ds })
      (rw (append-nil ds) (entry_at-end ds))
iterate-behind ds (e ∷ es) =
    iterate-some (suc (length es)) (record { entries = ds ++ e ∷ es; pos = length ds }) e
      (entry_at-behind ds e es)
    ∙ ap (λ r. e ∷ r)
        (ap (iterate (suc (length es))) (one_more-append ds e es)
          ∙ iterate-behind (ds ++ e ∷ []) es)

-- A loop on the iterator gives every entry of the policy, in order and once, and then ends: the number
-- of entries and one more rounds are enough.
iterate-iter_init : (es : List PolicyEntry) → iterate (suc (length es)) (iter_init es) ≡ es
unfolding iter_init
iterate-iter_init es = iterate-behind [] es
