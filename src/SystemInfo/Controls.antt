-- ===== src/SystemInfo/Controls.antt =====
-- The input controls: what a scan finds, and that an answer stands by the flags.
use appstream.Base.{◌≡◌, refl, Bool, true, false, not, arith, inl, inr, Bool-cases, if◌then◌else◌}
use appstream.Relation.Kinds.{ControlKind}
use appstream.SystemInfo.{
  Host, SystemInfo, CheckResult, unless_error, error, found, is_found, mark_input_control_status,
  probe, scan_rest, scan_pointing, find_input_controls, input_control_answer, has_input_control,
  set_input_control,
}

-- What every mark of the scan keeps, the scan keeps.
module _ (P : SystemInfo → Type 0)
    (mark-P : (k : ControlKind) (f : Bool) (s : SystemInfo)
      → P s
      → P (mark_input_control_status k f s)) where
  if-P : (b : Bool) (x y : SystemInfo × Bool) → P x.0 → P y.0 → P (if b then x else y).0
  if-P true x y p q = p
  if-P false x y p q = q

  unless_error-P :
      (res : CheckResult) (x y : SystemInfo × Bool) → P x.0 → P y.0 → P (unless_error res x y).0
  unless_error-P error x y p q = p
  unless_error-P _ x y p q = q

  probe-P :
      (h : Host) (key : _) (k : ControlKind) (next : CheckResult → SystemInfo → SystemInfo × Bool)
      → ((res : CheckResult) (s : SystemInfo) → P s → P (next res s).0)
      → (s : SystemInfo) → P s
      → P (probe h key k next s).0
  unfolding probe
  probe-P h key k next n s c =
      let res = h.has_device_with_property key in
      unless_error-P res (s, false) _ c (n res _ (mark-P k (is_found res) s c))

  scan_rest-P : (h : Host) (s : SystemInfo) → P s → P (scan_rest h s).0
  unfolding scan_rest
  scan_rest-P h s c =
      probe-P h _ ControlKind.gamepad _
        (λ _ t d.
          probe-P h _ ControlKind.tablet _
            (λ _ u e. probe-P h _ ControlKind.touch _ (λ _ v f. f) u e) t d)
        s c

  scan_pointing-P : (h : Host) (s : SystemInfo) → P s → P (scan_pointing h s).0
  unfolding scan_pointing
  scan_pointing-P h s c =
      probe-P h _ ControlKind.pointing _
        (λ res t d.
          if-P (not (is_found res)) _ _
            (probe-P h _ ControlKind.pointing _ (λ _ u f. scan_rest-P h u f) t d)
            (scan_rest-P h t d))
        s c

  -- A scan that is made starts from the console, marked as found.
  find-P :
      (h : Host) (s : SystemInfo)
      → (s.inputs_scanned ≡ true → P s)
      → (s.inputs_scanned ≡ false
          → P (record (mark_input_control_status ControlKind.console true s) {
            inputs_scanned = true;
          }))
      → P (find_input_controls h s).0
  unfolding find_input_controls
  find-P h s old new = elim (Bool-cases s.inputs_scanned) [
    | inl e ↦ if_true s.inputs_scanned _ _ e (old e)
    | inr e ↦
        if_false s.inputs_scanned _ _ e
          (probe-P h _ ControlKind.keyboard _ (λ _ t d. scan_pointing-P h t d) _ (new e))
  ]
    where
      if_true : (b : Bool) (x y : SystemInfo × Bool) → b ≡ true → P x.0 → P (if b then x else y).0
      if_true true x y e p = p
      if_true false x y e p = absurd (cc)

      if_false : (b : Bool) (x y : SystemInfo × Bool) → b ≡ false → P y.0 → P (if b then x else y).0
      if_false true x y e p = absurd (cc)
      if_false false x y e p = p

-- A control that was found was also tested.
abbrev IsConsistent : SystemInfo → Type 0
IsConsistent s = (k : ControlKind) → s.input_controls k ≡ true → s.tested_input_controls k ≡ true

mark-IsConsistent :
    (k : ControlKind) (f : Bool) (s : SystemInfo)
    → IsConsistent s
    → IsConsistent (mark_input_control_status k f s)
unfolding mark_input_control_status
mark-IsConsistent k f s h j = ground (arith, h j)

find-IsConsistent :
    (h : Host) (s : SystemInfo) → IsConsistent s → IsConsistent (find_input_controls h s).0
find-IsConsistent h s c =
    find-P IsConsistent mark-IsConsistent h s (λ _. c)
      (λ _. mark-IsConsistent ControlKind.console true s c)

mark-scanned :
    (k : ControlKind) (f : Bool) (s : SystemInfo)
    → s.inputs_scanned ≡ true
    → (mark_input_control_status k f s).inputs_scanned ≡ true
unfolding mark_input_control_status
mark-scanned k f s e = e

mark-keeps :
    (j k : ControlKind) (f : Bool) (s : SystemInfo)
    → s.input_controls j ≡ true
    → (mark_input_control_status k f s).input_controls j ≡ true
unfolding mark_input_control_status
mark-keeps j k f s e = ground arith

find_scanned : (h : Host) (s : SystemInfo) → (find_input_controls h s).0.inputs_scanned ≡ true
find_scanned h s = find-P (λ t. t.inputs_scanned ≡ true) mark-scanned h s (λ e. e) (λ _. refl)

scanned_find :
    (h : Host) (s : SystemInfo) → s.inputs_scanned ≡ true → find_input_controls h s ≡ (s, true)
unfolding find_input_controls
scanned_find h s e = go s.inputs_scanned _ e
  where
    go : (b : Bool) (x : SystemInfo × Bool) → b ≡ true → (if b then (s, true) else x) ≡ (s, true)
    go true x e = refl
    go false x e = absurd (cc)

-- The scan is made once: whatever its probes came to, a further scan changes nothing and succeeds.
find_input_controls_twice :
    (h : Host) (s : SystemInfo)
    → find_input_controls h (find_input_controls h s).0 ≡ ((find_input_controls h s).0, true)
find_input_controls_twice h s = scanned_find h (find_input_controls h s).0 (find_scanned h s)

-- No operation on input controls marks a control as found that is not marked as tested, however
-- the probes of the scan end. So the answer that nobody looked for a control is never given for
-- one that was found.
controls-IsConsistent :
    (h : Host) (k : ControlKind) (f : Bool) (s : SystemInfo)
    → IsConsistent s
    → IsConsistent (has_input_control h k s).0 × IsConsistent (set_input_control h k f s)
unfolding has_input_control set_input_control
controls-IsConsistent h ControlKind.unknown f s c = (c, c)
controls-IsConsistent h k f s c =
    let scanned = find-IsConsistent h s c in
    (scanned, mark-IsConsistent k f (find_input_controls h s).0 scanned)

-- A control that was found once stays found: `as_system_info_set_input_control` cannot withdraw it.
set_input_control-stays :
    (h : Host) (k : ControlKind) (s : SystemInfo)
    → s.inputs_scanned ≡ true
    → s.input_controls k ≡ true
    → input_control_answer k (set_input_control h k false s) ≡ found
unfolding input_control_answer set_input_control find_input_controls mark_input_control_status
set_input_control-stays h ControlKind.unknown s i f = ground arith
set_input_control-stays h _ s i f = ground arith

-- The console counts as found even where it was forbidden before the first scan.
console_forbidden :
    (h : Host) (s : SystemInfo)
    → s.inputs_scanned ≡ false
    → input_control_answer ControlKind.console (set_input_control h ControlKind.console false s)
      ≡ found
unfolding input_control_answer set_input_control
console_forbidden h s i =
    let has_console =
      find-P (λ t. t.input_controls ControlKind.console ≡ true) (mark-keeps ControlKind.console) h s
        (λ e. absurd (cc (i, e))) (λ _. unfold mark_input_control_status in refl) in
    rw (
      mark-keeps ControlKind.console ControlKind.console false (find_input_controls h s).0
        has_console)
