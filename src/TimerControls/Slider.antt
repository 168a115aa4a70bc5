-- ===== src/TimerControls/Slider.antt =====
-- timer-controls.js: the slider and its label.
use aetheldesk.Base.{
  ℕ, ◌+◌, ◌*◌, ◌/◌, ◌≤◌, ◌<◌, ◌≡◌, ◌↔◌, refl, Bool, false, not, Option, none, some, List, ◌∷◌,
  arith, if_intro, ◌==◌,
}
use aetheldesk.TimerControls.{
  set_duration, time_override, Controls, update_slider_text, update_dur_chips, Override, slider_for,
  sync_slider, reset_time, input_slider, send_override, click_chip, click_pomodoro,
}

-- The label is the slider's time, and the sun is on display from six to eighteen.
pub record IsLabelled (c : Controls) : Type 0 where
  pub time : 60 * c.label.0 + c.label.1 ≡ c.slider
  pub minutes : c.label.1 < 60
  pub day : (c.sun_hidden ≡ false) ↔ ((6 ≤ c.label.0) × (c.label.0 < 18))
  pub night : c.moon_hidden ≡ not c.sun_hidden

text-IsLabelled :
    (value : ℕ) (c : Controls) → c.slider ≡ value → IsLabelled (update_slider_text value c)
unfolding update_slider_text
text-IsLabelled value c h = record {
  time = ground (h, arith);
  minutes = omega arith;
  day = ground arith;
  night = ground arith;
}

pub data Step (c : Controls) : Controls → Type 0 where
  syncs : (now minute : ℕ) (o : Override) → Step c (sync_slider now minute o c)
  resets : (now minute : ℕ) → Step c (reset_time now minute c)
  inputs : (now value : ℕ) → Step c (input_slider now value c)
  overrides : (value : ℕ) → Step c (send_override value c)
  picks : (minutes : ℕ) (duration : Option ℕ) → Step c (click_chip minutes duration c)
  clicks : (flags : Option (Bool × Bool)) → Step c (click_pomodoro flags c)
  chips : (ms : List ℕ) (active : ℕ) → Step c (update_dur_chips ms active c)

pub data Reach (c : Controls) : Controls → Type 0 where
  here : Reach c c
  next : {a b : Controls} → Reach c a → Step a b → Reach c b

same-IsLabelled :
    (c d : Controls)
    → d.slider ≡ c.slider
    → d.label ≡ c.label
    → d.sun_hidden ≡ c.sun_hidden
    → d.moon_hidden ≡ c.moon_hidden
    → IsLabelled c
    → IsLabelled d
same-IsLabelled c d s l u m h = record {
  time = rw (s, l) h.time;
  minutes = rw l h.minutes;
  day = rw (u, l) h.day;
  night = rw (u, m) h.night;
}

Step-IsLabelled : {c d : Controls} → Step c d → IsLabelled c → IsLabelled d
unfolding sync_slider reset_time input_slider send_override click_chip click_pomodoro
    update_dur_chips
Step-IsLabelled {c} (syncs now minute o) h =
    if_intro (λ (x : Controls). IsLabelled x) _ (λ _. h)
      (λ _.
        text-IsLabelled (slider_for o minute c.slider)
          (record c { slider = slider_for o minute c.slider }) refl)
Step-IsLabelled {c} (resets now minute) h =
    text-IsLabelled minute
      (record c { slider_touched_at = now; sent = time_override none ∷ c.sent; slider = minute })
      refl
Step-IsLabelled {c} (inputs now value) h =
    text-IsLabelled value (record c { slider_touched_at = now; slider = value }) refl
Step-IsLabelled {c} (overrides value) h = same-IsLabelled c _ refl refl refl refl h
Step-IsLabelled {c} (picks minutes none) h = same-IsLabelled c _ refl refl refl refl h
Step-IsLabelled {c} (picks minutes (some d)) h =
    if_intro (λ (x : Controls). IsLabelled x) (minutes == (d + 30) / 60) {x = c}
      {y = record c { sent = set_duration minutes ∷ c.sent }} (λ _. h)
      (λ _.
        same-IsLabelled c (record c { sent = set_duration minutes ∷ c.sent }) refl refl refl refl h)
Step-IsLabelled {c} (clicks none) h = h
Step-IsLabelled {c} (clicks (some (focus, break))) h =
    if_intro (λ (x : Controls). IsLabelled x) focus (λ _. same-IsLabelled c _ refl refl refl refl h)
      (λ _.
        if_intro (λ (x : Controls). IsLabelled x) break
          (λ _. same-IsLabelled c _ refl refl refl refl h) (λ _. h))
Step-IsLabelled {c} (chips ms active) h = same-IsLabelled c _ refl refl refl refl h

-- After any history of the controls, the label shows the slider's time as hours and minutes, and of
-- the two icons it is the sun exactly from 06:00 to 17:59.
pub Reach-IsLabelled : {c d : Controls} → IsLabelled c → Reach c d → IsLabelled d
Reach-IsLabelled h here = h
Reach-IsLabelled h (next r s) = Step-IsLabelled s (Reach-IsLabelled h r)

-- A snapshot that arrives within a second and a half after the slider was moved does not move it.
pub sync-input_slider :
    (now later value minute : ℕ) (o : Override) (c : Controls)
    → later < now + 1500
    → sync_slider later minute o (input_slider now value c) ≡ input_slider now value c
unfolding sync_slider input_slider update_slider_text
sync-input_slider now later value minute o c h = ground (h, arith)
