-- ===== src/TimerControls/Waiting.antt =====
-- timer-controls.js: `focusWhenShown`, which waits for a row of controls to be shown. Times are in milliseconds;
-- whether the row is shown at a time is an argument.
use aetheldesk.Base.{
  ℕ, zero, suc, ◌+◌, ◌*◌, ◌≤◌, ◌<◌, ◌≡◌, ◌∙◌, ap, Bool, true, false, Option, none, some,
  if◌then◌else◌, arith,
}

-- When the control is focused, `none` where the row is never seen.
unfoldable pub focus_when_shown : (ℕ → Bool) → ℕ → ℕ → Option ℕ
focus_when_shown shown zero now = if shown now then some (now + 120) else none
focus_when_shown shown (suc attempts) now =
    let later : Option ℕ = focus_when_shown shown attempts (now + 80) in
    if shown now then some (now + 120) else later

-- A click on the focus button, with the attempts that are the default.
unfoldable pub focus_after_click : (ℕ → Bool) → ℕ → Option ℕ
unfolding focus_when_shown
focus_after_click shown now = focus_when_shown shown 40 now

focus_at_look :
    (shown : ℕ → Bool) (attempts k now : ℕ)
    → k ≤ attempts
    → ((j : ℕ) → j < k → shown (now + 80 * j) ≡ false)
    → shown (now + 80 * k) ≡ true
    → focus_when_shown shown attempts now ≡ some (now + 80 * k + 120)
unfolding focus_when_shown
focus_at_look shown zero k now bound before here =
    let seen : shown now ≡ true = ap shown (omega arith) ∙ here in rw seen (ap some (omega arith))
focus_at_look shown (suc attempts) zero now bound before here =
    let seen : shown now ≡ true = ap shown (omega arith) ∙ here in rw seen (ap some (omega arith))
focus_at_look shown (suc attempts) (suc k) now bound before here =
    let unseen : shown now ≡ false = ap shown (omega arith) ∙ before 0 (omega arith) in
    let later =
      focus_at_look shown attempts k (now + 80) (omega arith)
        (λ j h. ap shown (omega arith) ∙ before (suc j) (omega (arith, h)))
        (ap shown (omega arith) ∙ here) in
    rw unseen (later ∙ ap some (omega arith))

-- After a click the control is focused 120 ms after the first of the looks, 80 ms apart, at which its row is
-- shown, if that is one of the 41.
pub focus_after_click_lem :
    (shown : ℕ → Bool) (k now : ℕ)
    → k ≤ 40
    → ((j : ℕ) → j < k → shown (now + 80 * j) ≡ false)
    → shown (now + 80 * k) ≡ true
    → focus_after_click shown now ≡ some (now + 80 * k + 120)
unfolding focus_after_click
focus_after_click_lem shown k now = focus_at_look shown 40 k now
