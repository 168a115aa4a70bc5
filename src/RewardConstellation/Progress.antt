-- ===== src/RewardConstellation/Progress.antt =====
-- reward-constellation.js: lemmas on the mark and the count of completed sessions.
use aetheldesk.Base.{
  ℕ, suc, ◌-◌, ◌*◌, ◌≤◌, Bool, true, false, Option, none, some, List, [], ◌∷◌, ltb, ◌==◌,
  if◌then◌else◌, ◌≡◌, refl, ◌∙◌, arith, if_intro, not, ◌&&◌, ◌||◌,
}
use aetheldesk.Js.{Number}
use aetheldesk.RewardConstellation.{
  Constellation, Reward, clamp_completed_sessions, visible_edges, nodes_from, apply_progress,
  set_completed_sessions, set_pixel_ratio, update, dispose, create_reward_constellation, blank,
  sync_reward_visibility, update_reward,
}

abbrev count_true : List Bool → ℕ
count_true [] = 0
count_true (true ∷ bs) = suc (count_true bs)
count_true (false ∷ bs) = count_true bs

-- What is drawn, as a function of the completed sessions: none, one star, two with a line, three with
-- two, and the closed square of four.
pub record IsDrawn (c : Constellation) : Type 0 where
  pub capped : c.completed ≤ 4
  pub stars : c.star_draw_count ≡ c.completed
  pub nodes : count_true c.active_nodes ≡ c.completed
  pub lines : c.line_draw_count ≡ (if c.completed == 4 then 8 else 2 * (c.completed - 1))
  pub lines_shown : c.lines_visible ≡ ltb 1 c.completed
  pub stars_shown : c.stars_visible ≡ ltb 0 c.completed

apply-IsDrawn :
    (n : ℕ) (animate : Bool) (c : Constellation) → n ≤ 4 → IsDrawn (apply_progress n animate c)
unfolding apply_progress visible_edges nodes_from
apply-IsDrawn n animate c h = record {
  capped = h;
  stars = refl;
  nodes = ground (h, arith);
  lines = ground (h, arith);
  lines_shown = ground (h, arith);
  stars_shown = refl;
}

-- The calls on a mark.
pub data Call : Type 0 where
  sets : Number → Bool → Call
  scales : Option ℕ → Call
  frames : ℕ → Bool → Call
  disposes : Call

module _ (decay : ℕ → ℕ → ℕ) where
  unfoldable pub perform : Call → Constellation → Constellation
  unfolding set_completed_sessions set_pixel_ratio update dispose
  perform (sets v reveal) c = set_completed_sessions v reveal c
  perform (scales ratio) c = set_pixel_ratio ratio c
  perform (frames step reduced) c = update decay step reduced c
  perform disposes c = dispose c

  unfoldable pub perform_all : List Call → Constellation → Constellation
  unfolding perform
  perform_all [] c = c
  perform_all (k ∷ ks) c = perform_all ks (perform k c)

  -- What the other calls leave alone.
  moved-IsDrawn :
      (c d : Constellation)
      → d.completed ≡ c.completed
      → d.star_draw_count ≡ c.star_draw_count
      → d.active_nodes ≡ c.active_nodes
      → d.line_draw_count ≡ c.line_draw_count
      → d.lines_visible ≡ c.lines_visible
      → d.stars_visible ≡ c.stars_visible
      → IsDrawn c
      → IsDrawn d
  moved-IsDrawn c d a b e f g i h = record {
    capped = rw a h.capped;
    stars = cc (a, b, h.stars);
    nodes = rw (a, e) h.nodes;
    lines = rw (a, f) h.lines;
    lines_shown = rw (a, g) h.lines_shown;
    stars_shown = rw (a, i) h.stars_shown;
  }

  clamp_bound : (v : Number) → clamp_completed_sessions v ≤ 4
  unfolding clamp_completed_sessions
  clamp_bound v = ground arith

  perform-IsDrawn : (k : Call) (c : Constellation) → IsDrawn c → IsDrawn (perform k c)
  unfolding perform set_completed_sessions set_pixel_ratio update dispose
  perform-IsDrawn (sets v reveal) c h =
      if_intro (λ (x : Constellation). IsDrawn x) c.disposed (λ _. h)
        (λ _.
          if_intro (λ (x : Constellation). IsDrawn x) _
            (λ _. apply-IsDrawn (clamp_completed_sessions v) reveal c (clamp_bound v)) (λ _. h))
  perform-IsDrawn (scales none) c h =
      if_intro (λ (x : Constellation). IsDrawn x) c.disposed (λ _. h)
        (λ _. moved-IsDrawn c _ refl refl refl refl refl refl h)
  perform-IsDrawn (scales (some ratio)) c h =
      if_intro (λ (x : Constellation). IsDrawn x) c.disposed (λ _. h)
        (λ _. moved-IsDrawn c _ refl refl refl refl refl refl h)
  perform-IsDrawn (frames step reduced) c h =
      if_intro (λ (x : Constellation). IsDrawn x) c.disposed (λ _. h)
        (λ _.
          if_intro (λ (x : Constellation). IsDrawn x) reduced
            (λ _. moved-IsDrawn c _ refl refl refl refl refl refl h)
            (λ _. moved-IsDrawn c _ refl refl refl refl refl refl h))
  perform-IsDrawn disposes c h = moved-IsDrawn c _ refl refl refl refl refl refl h

  all-IsDrawn : (ks : List Call) (c : Constellation) → IsDrawn c → IsDrawn (perform_all ks c)
  unfolding perform_all
  all-IsDrawn [] c h = h
  all-IsDrawn (k ∷ ks) c h = all-IsDrawn ks (perform k c) (perform-IsDrawn k c h)

  -- After any calls on a new mark, the stars, the lit nodes and the lines on display are those of the
  -- completed sessions, of which there are at most four.
  pub perform_all-IsDrawn :
      (v : Number) (ratio : Option ℕ) (ks : List Call)
      → IsDrawn (perform_all ks (create_reward_constellation v ratio))
  unfolding create_reward_constellation
  perform_all-IsDrawn v ratio ks = all-IsDrawn ks (create_reward_constellation v ratio) (
      apply-IsDrawn (clamp_completed_sessions v) false (set_pixel_ratio ratio blank)
        (clamp_bound v))

  -- The number of sessions that a list of calls asks for: the last one before the disposal.
  abbrev pub asked : Bool → ℕ → List Call → ℕ
  asked disposed n [] = n
  asked disposed n (sets v reveal ∷ ks) =
      asked disposed (if disposed then n else clamp_completed_sessions v) ks
  asked disposed n (disposes ∷ ks) = asked true n ks
  asked disposed n (k ∷ ks) = asked disposed n ks

  set-disposed :
      (v : Number) (reveal : Bool) (c : Constellation)
      → (set_completed_sessions v reveal c).disposed ≡ c.disposed
  unfolding set_completed_sessions apply_progress
  set-disposed v reveal c = ground arith

  set-completed :
      (v : Number) (reveal : Bool) (c : Constellation)
      → (set_completed_sessions v reveal c).completed
        ≡ (if c.disposed then c.completed else clamp_completed_sessions v)
  unfolding set_completed_sessions apply_progress
  set-completed v reveal c = ground arith

  frame-kept :
      (step : ℕ) (reduced : Bool) (c : Constellation)
      → ((update decay step reduced c).disposed ≡ c.disposed)
        × ((update decay step reduced c).completed ≡ c.completed)
  unfolding update
  frame-kept step reduced c = ground arith

  ratio-kept :
      (r : Option ℕ) (c : Constellation)
      → ((set_pixel_ratio r c).disposed ≡ c.disposed)
        × ((set_pixel_ratio r c).completed ≡ c.completed)
  unfolding set_pixel_ratio
  ratio-kept r c = ground arith

  perform-completed :
      (k : Call) (ks : List Call) (c : Constellation)
      → asked (perform k c).disposed (perform k c).completed ks
        ≡ asked c.disposed c.completed (k ∷ ks)
  unfolding perform dispose
  perform-completed (sets v reveal) ks c =
      rw (set-disposed v reveal c, set-completed v reveal c) refl
  perform-completed (scales r) ks c = rw ((ratio-kept r c).0, (ratio-kept r c).1) refl
  perform-completed (frames step reduced) ks c =
      rw ((frame-kept step reduced c).0, (frame-kept step reduced c).1) refl
  perform-completed disposes ks c = refl

  -- The completed sessions of a mark are what the calls ask for: the last number that was set before
  -- the disposal, kept within 0 and 4.
  pub perform_all-completed :
      (ks : List Call) (c : Constellation)
      → (perform_all ks c).completed ≡ asked c.disposed c.completed ks
  unfolding perform_all
  perform_all-completed [] c = refl
  perform_all-completed (k ∷ ks) c =
      perform_all-completed ks (perform k c) ∙ perform-completed k ks c

-- Feeding a mark that was not disposed leaves the controller with the number kept within 0 and 4, and
-- the mark as if it had been given the raw number, on display exactly when there is something to show
-- and either a rest runs or the window is large enough.
pub update_reward_lem :
    (aspect height : ℕ) (v : Number) (reveal active : Bool) (r : Reward) (c : Constellation)
    → r.constellation ≡ some c
    → c.disposed ≡ false
    → let r' = update_reward aspect height v reveal active r in
      (r'.reward_progress ≡ clamp_completed_sessions v)
      × (r'.constellation
          ≡ some (record (set_completed_sessions v reveal c) {
            group_visible =
                ltb 0 (clamp_completed_sessions v)
                && (active || not (ltb aspect 80 || not (ltb 480 height)));
          }))
unfolding update_reward sync_reward_visibility set_completed_sessions clamp_completed_sessions
update_reward_lem aspect height v reveal active r c h q = ground (h, q, arith)
