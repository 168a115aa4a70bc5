-- ===== src/TimerControls.antt =====
-- frontend/src/timer-controls.js: the time slider, the duration chips and what the buttons send. Times
-- of day are in minutes, the clock in milliseconds; the debounce of the slider's messages is the one
-- of `Dom/Debounce.antt`. A label is its hours and minutes; `TimerControls/Texts.antt`
-- has the texts.
pub mod Slider
pub mod Texts
pub mod Waiting
mod Tests
use aetheldesk.Base.{
  ℕ, ◌+◌, ◌*◌, ◌/◌, ◌%◌, ◌-◌, Bool, true, false, not, ◌&&◌, Option, none, some, List, [], ◌∷◌, map,
  ltb, leb, ◌==◌, if◌then◌else◌,
}

pub data Message : Type 0 where
  set_duration : ℕ → Message
  time_override : Option ℕ → Message
  focus_toggle focus_pause focus_cancel skip_break : Message

pub record Controls : Type 0 where
  pub slider : ℕ
  pub label : ℕ × ℕ
  pub sun_hidden : Bool
  pub moon_hidden : Bool
  pub slider_touched_at : ℕ
  pub chips_pressed : List Bool
  pub sent : List Message

-- updateSliderText
unfoldable pub update_slider_text : ℕ → Controls → Controls
update_slider_text value c =
    let is_day : Bool = leb 360 value && ltb value 1080 in
    record c { label = (value / 60, value % 60); sun_hidden = not is_day; moon_hidden = is_day }

-- updateDurChips, over the minutes of the chips
unfoldable pub update_dur_chips : List ℕ → ℕ → Controls → Controls
update_dur_chips chips active c = record c { chips_pressed = map (λ m. m == active) chips }

-- A server message's `time_override`: none, a text without a time in it, or one with hours and minutes.
pub data Override : Type 0 where
  no_override unreadable : Override
  at : ℕ → ℕ → Override

abbrev pub slider_for : Override → ℕ → ℕ → ℕ
slider_for no_override now old = now
slider_for unreadable now old = old
slider_for (at hours minutes) now old = hours * 60 + minutes

-- `now` is the clock, `minute` the time of day.
unfoldable pub sync_slider : ℕ → ℕ → Override → Controls → Controls
unfolding update_slider_text
sync_slider now minute override c =
    let value : ℕ = slider_for override minute c.slider in
    let moved : Controls = update_slider_text value (record c { slider = value }) in
    if ltb now (c.slider_touched_at + 1500) then c else moved

unfoldable pub reset_time : ℕ → ℕ → Controls → Controls
unfolding update_slider_text
reset_time now minute c =
    update_slider_text minute
      (record c { slider_touched_at = now; sent = time_override none ∷ c.sent; slider = minute })

-- The slider's `input`, up to the debounced message.
unfoldable pub input_slider : ℕ → ℕ → Controls → Controls
unfolding update_slider_text
input_slider now value c =
    update_slider_text value (record c { slider_touched_at = now; slider = value })

unfoldable pub send_override : ℕ → Controls → Controls
send_override value c = record c { sent = time_override (some value) ∷ c.sent }

-- A click on a chip; `duration` is that of the last snapshot, in seconds.
unfoldable pub click_chip : ℕ → Option ℕ → Controls → Controls
click_chip minutes none c = record c { sent = set_duration minutes ∷ c.sent }
click_chip minutes (some duration) c =
    if minutes == (duration + 30) / 60 then c else record c { sent = set_duration minutes ∷ c.sent }

-- A click on the running time; the flags are those of the last snapshot.
unfoldable pub click_pomodoro : Option (Bool × Bool) → Controls → Controls
click_pomodoro none c = c
click_pomodoro (some (focus, break)) c =
    if focus
    then record c { sent = focus_pause ∷ c.sent }
    else if break
    then record c { sent = skip_break ∷ c.sent }
    else c
