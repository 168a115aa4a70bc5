-- ===== src/RestRitual/View/Laws.antt =====
-- What one snapshot does to the break panel.
use aetheldesk.Js.{truthy, coalesce, is_finite, trunc_or}
use aetheldesk.Base.{
  ap, refl, Option, inl, inr, Bool-cases, ◌∙◌, min, max, ltb, leb, if◌then◌else◌, ℕ, ◌≡◌, true,
  false, Bool, arith, ◌⊎◌,
}
use aetheldesk.RestRitual.{reveal, returning, Snapshot, Model, derive_rest_ritual_state, phase_of}
use aetheldesk.RestRitual.Tracker.{observe, observe_id}
use aetheldesk.RestRitual.Panel.{Page, in_recovery, in_intent, in_root}
use aetheldesk.Base.{not, ◌&&◌}
use aetheldesk.RestRitual.Panel.{same_phase}
use aetheldesk.RestRitual.View.{Ritual, update, decide_update, rendered_phase}

-- What the snapshot says: whether a break runs, and how many seconds of it are left.
abbrev pub in_break : Snapshot → Bool
in_break s = truthy (coalesce s.break s.is_break)

abbrev pub seconds_left : Snapshot → ℕ
seconds_left s =
    let all : ℕ = max 1 (trunc_or s.break_duration 600) in
    if is_finite s.break_remaining
    then min all (trunc_or s.break_remaining 0)
    else if in_break s
    then min all (trunc_or s.pomodoro_remaining 0)
    else 0

rendered_returning :
    (m : Model) (id : Option ℕ)
    → same_phase (rendered_phase m id) returning ≡ same_phase m.phase returning
unfolding rendered_phase
rendered_returning m id = ground arith

phase_returning :
    (b : Bool) (remaining elapsed : ℕ)
    → b ≡ true
    → same_phase (phase_of b remaining elapsed) returning ≡ leb remaining 60
unfolding phase_of
phase_returning b remaining elapsed e = ground arith

left_in_break :
    (s : Snapshot)
    → in_break s ≡ true
    → (derive_rest_ritual_state s).break_remaining ≡ seconds_left s
unfolding derive_rest_ritual_state
left_in_break s e = ground arith

model_returns :
    (s : Snapshot)
    → in_break s ≡ true
    → same_phase (derive_rest_ritual_state s).phase returning ≡ leb (seconds_left s) 60
unfolding derive_rest_ritual_state
model_returns s e = phase_returning (in_break s) _ _ e ∙ ap (λ n. leb n 60) (left_in_break s e)

module _ (p : Page) (s : Snapshot) (reset : Bool) (r : Ritual) where
  abbrev after : Ritual
  after = update p s reset r

  own_groups :
      (after.view.root_hidden ≡ not after.was_break)
      × (after.view.recovery_hidden
          ≡ not (after.was_break && not (same_phase after.previous_phase returning)))
      × (after.view.intent_hidden
          ≡ not (after.was_break && same_phase after.previous_phase returning))
  unfolding update
  own_groups = ground arith

  was_break : after.was_break ≡ in_break s
  unfolding update derive_rest_ritual_state
  was_break = refl

  returns : in_break s ≡ true → same_phase after.previous_phase returning ≡ leb (seconds_left s) 60
  unfolding update derive_rest_ritual_state
  returns e =
      let told =
        rendered_returning (derive_rest_ritual_state s) (decide_update s reset r).reveal_id in
      told ∙ model_returns s e

  -- After any snapshot the panel is hidden exactly if the snapshot says that no break runs, the
  -- recovery choices are on display exactly if a break runs that has more than 60 seconds left, and
  -- the choices of the next intent exactly if a break runs that has no more than 60 seconds left.
  pub update_groups :
      (after.view.root_hidden ≡ not (in_break s))
      × (after.view.recovery_hidden ≡ not (in_break s && ltb 60 (seconds_left s)))
      × (after.view.intent_hidden ≡ not (in_break s && leb (seconds_left s) 60))
  update_groups =
      let (root, recovery, intent) = own_groups in
      elim (Bool-cases (in_break s)) [
        | inl e ↦ ground (arith, was_break, returns e)
        | inr e ↦ ground (arith, was_break)
      ]

  -- After any snapshot, wherever the keyboard focus was, it is not in a part of the panel that is
  -- hidden.
  pub update_focus :
      (in_root after.view.focus && after.view.root_hidden ≡ false)
      × (in_recovery after.view.focus && after.view.recovery_hidden ≡ false)
      × (in_intent after.view.focus && after.view.intent_hidden ≡ false)
  unfolding update
  update_focus = ground arith

  -- The reveal phase is rendered only for the completion whose reveal was seen, in this update or
  -- before.
  pub update_reveal_phase :
      after.previous_phase ≡ reveal
      → (after.reveal_reward_id ≡ after.previous_reward_id)
        × ((after.latest_reveal ≡ true) ⊎ (r.reveal_reward_id ≡ after.previous_reward_id))
  unfolding update observe observe_id derive_rest_ritual_state phase_of
  update_reveal_phase h = ground arith
