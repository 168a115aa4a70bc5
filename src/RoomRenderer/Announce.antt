-- ===== src/RoomRenderer/Announce.antt =====
-- room-renderer.js: lemmas on what `renderFocus` has a screen reader say.
use aetheldesk.Base.{
  ℕ, zero, suc, ◌+◌, ◌/◌, ◌≡◌, refl, true, false, some, List, ◌∷◌, ◌==◌, if◌then◌else◌, arith, ◌∙◌,
  inl, inr, Bool-cases, ap,
}
use aetheldesk.RoomRenderer.{
  Snapshot, Regions, Active, Screen, Key, focus_minutes, is_last, announcement, minute_bucket,
  render_focus,
}

announced-render_focus :
    (r : Regions) (a : Active) (s : Snapshot) (screen : Screen)
    → (render_focus r a s screen).announced ≡ (
        if is_last screen.last_timer_announcement (announcement s)
        then screen.announced
        else announcement s ∷ screen.announced)
unfolding render_focus
announced-render_focus r a s screen =
    elim (Bool-cases (is_last screen.last_timer_announcement (announcement s))) [
      | inl e ↦ rw e
      | inr e ↦ rw e
    ]

last-render_focus :
    (r : Regions) (a : Active) (s : Snapshot) (screen : Screen)
    → (render_focus r a s screen).last_timer_announcement ≡ (
        if is_last screen.last_timer_announcement (announcement s)
        then screen.last_timer_announcement
        else some (announcement s))
unfolding render_focus
last-render_focus r a s screen =
    elim (Bool-cases (is_last screen.last_timer_announcement (announcement s))) [
      | inl e ↦ rw e
      | inr e ↦ rw e
    ]

-- A snapshot of a focus that runs, with so many seconds left.
abbrev pub running : ℕ → Snapshot
running seconds = record {
  focus = true;
  remaining = seconds;
  is_break = false;
  break_remaining = 0;
  paused = false;
}

-- One snapshot a second, from `n` seconds down to the last one.
unfoldable pub countdown : Regions → (ℕ → Active) → ℕ → Screen → Screen
countdown r at zero screen = screen
countdown r at (suc n) screen = countdown r at n (render_focus r (at n) (running (suc n)) screen)

-- The minutes from `k` down to 1, the last one first.
abbrev pub minutes : ℕ → List Key → List Key
minutes zero said = said
minutes (suc k) said = minutes k (focus_minutes (suc k) ∷ said)

announcement-running : (n : ℕ) → announcement (running (suc n)) ≡ focus_minutes (n / 60 + 1)
unfolding announcement
announcement-running n = ap focus_minutes (omega arith)

-- One more second: the key of the minute is said where it is new.
module _ (r : Regions) (a : Active) (n : ℕ) (screen : Screen) where
  abbrev next_screen : Screen
  next_screen = render_focus r a (running (suc n)) screen

  last-next_screen :
      (m : ℕ)
      → screen.last_timer_announcement ≡ some (focus_minutes m)
      → next_screen.last_timer_announcement ≡ some (focus_minutes (n / 60 + 1))
  last-next_screen m h =
      ground (arith, last-render_focus r a (running (suc n)) screen, announcement-running n)

  announced-next_screen :
      (m : ℕ)
      → screen.last_timer_announcement ≡ some (focus_minutes m)
      → next_screen.announced ≡ (
          if m == n / 60 + 1
          then screen.announced
          else focus_minutes (n / 60 + 1) ∷ screen.announced)
  announced-next_screen m h =
      ground (arith, announced-render_focus r a (running (suc n)) screen, announcement-running n)

minutes-next :
    (n : ℕ) (said : List Key)
    → minutes
        (n / 60)
        (if suc n / 60 + 1 == n / 60 + 1 then said else focus_minutes (n / 60 + 1) ∷ said)
      ≡ minutes (suc n / 60) said
minutes-next n said = elim (Bool-cases (suc n / 60 + 1 == n / 60 + 1)) [
  | inl e ↦ let q : n / 60 ≡ suc n / 60 = ground arith in rw e (ap (λ k. minutes k said) q)
  | inr e ↦
      let q : suc n / 60 ≡ suc (n / 60) = ground arith in
      rw (e, q) (ap (λ k. minutes (n / 60) (focus_minutes k ∷ said)) (omega arith))
]

countdown_from :
    (r : Regions) (at : ℕ → Active) (n : ℕ) (screen : Screen)
    → screen.last_timer_announcement ≡ some (focus_minutes (n / 60 + 1))
    → (countdown r at n screen).announced ≡ minutes (n / 60) screen.announced
unfolding countdown
countdown_from r at zero screen h = refl
countdown_from r at (suc n) screen h =
    countdown_from r at n _ (last-next_screen r (at n) n screen _ h)
    ∙ ap (minutes (n / 60)) (announced-next_screen r (at n) n screen _ h)
    ∙ minutes-next n screen.announced

bucket-suc : (n : ℕ) → minute_bucket (suc n) ≡ n / 60 + 1
unfolding minute_bucket
bucket-suc n = omega arith

fresh_start :
    (r : Regions) (a : Active) (n : ℕ) (screen : Screen)
    → is_last screen.last_timer_announcement (focus_minutes (n / 60 + 1)) ≡ false
    → let next = render_focus r a (running (suc n)) screen in
      (next.last_timer_announcement ≡ some (focus_minutes (n / 60 + 1)))
      × (next.announced ≡ focus_minutes (n / 60 + 1) ∷ screen.announced)
fresh_start r a n screen fresh = (
  last-render_focus r a (running (suc n)) screen ∙ rw (announcement-running n, fresh),
  announced-render_focus r a (running (suc n)) screen ∙ rw (announcement-running n, fresh),
)

-- A focus that runs through all of its seconds, with a snapshot each second, has each of its minutes
-- said once, from the first down to the last one, where the first was not the last thing said.
pub announced-countdown :
    (r : Regions) (at : ℕ → Active) (n : ℕ) (screen : Screen)
    → is_last screen.last_timer_announcement (focus_minutes (minute_bucket (suc n))) ≡ false
    → (countdown r at (suc n) screen).announced ≡ minutes (minute_bucket (suc n)) screen.announced
unfolding countdown
announced-countdown r at n screen fresh =
    let start = fresh_start r (at n) n screen (rw (bucket-suc n) at fresh) in
    let bucket : minute_bucket (suc n) ≡ suc (n / 60) = bucket-suc n ∙ omega arith in
    rw bucket (
      countdown_from r at n _ start.0
      ∙ ap (minutes (n / 60))
          (start.1 ∙ ap (λ k. focus_minutes k ∷ screen.announced) (omega arith)))
