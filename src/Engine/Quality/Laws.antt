-- ===== src/Engine/Quality/Laws.antt =====
-- What the user's switches and the tiers make of the effects.
use aetheldesk.Base.{
  ℕ, ◌≤◌, ◌≡◌, refl, String, Bool, false, some, List, arith, get_or, sym, subst, ltb,
}
use aetheldesk.Js.{Value}
use aetheldesk.Engine.Tiers.{Tier}
use aetheldesk.Engine.Quality.{
  Quality, Applied, get_effective_fx, apply_pending_configuration, set_quality, set_fx,
  set_bloom_suppressed, apply_fx, options_for, Fx, new_quality, watch_fps,
}

-- The options agree with what the engine reports as effective.
pub record Matches (fx : Fx) (a : Applied) : Type 0 where
  pub bloom : a.bloom ≡ fx.bloom
  pub shafts : a.shafts ≡ fx.shafts
  pub grain : a.grain ≡ fx.grain
  pub shadows : ltb 0 a.shadow_map ≡ fx.shadows
  pub shadow_cap : a.shadow_map ≤ 2048

abbrev target : Quality → Tier
target q = get_or q.pending_tier q.active_tier

options_for-Matches :
    (q : Quality)
    → Matches (get_effective_fx q) (options_for (target q) q.overrides q.bloom_suppressed)
unfolding options_for get_effective_fx
options_for-Matches q = record {
  bloom = refl;
  shafts = refl;
  grain = refl;
  shadows = ground arith;
  shadow_cap = ground arith;
}

-- Unless effects are pending, the post stack has the options of the active tier.
abbrev pub IsSynced : Quality → Type 0
IsSynced q =
    (a : Applied)
    → q.applied ≡ some a
    → q.fx_pending ≡ false
    → a ≡ options_for q.active_tier q.overrides q.bloom_suppressed

apply_pending-options :
    (q : Quality) (a : Applied)
    → IsSynced q
    → (apply_pending_configuration q).applied ≡ some a
    → a ≡ options_for (target q) q.overrides q.bloom_suppressed
unfolding apply_pending_configuration apply_fx
apply_pending-options q a h e = ground (arith, h a)

apply_pending-Matches :
    (q : Quality) (a : Applied)
    → IsSynced q
    → (apply_pending_configuration q).applied ≡ some a
    → Matches (get_effective_fx q) a
apply_pending-Matches q a h e =
    subst (Matches (get_effective_fx q)) (sym (apply_pending-options q a h e))
      (options_for-Matches q)

-- What the user and the frame loop do to the quality.
pub data Step (q : Quality) : Quality → Type 0 where
  frame_configured : Step q (apply_pending_configuration q)
  frame_timed : (delta : ℕ) → Step q (watch_fps delta q)
  quality_set : (name : String) → Step q (set_quality name q)
  fx_set : (fx : List (String × Value)) → Step q (set_fx fx q)
  bloom_set : (b : Bool) → Step q (set_bloom_suppressed b q)

pub data Reach (q : Quality) : Quality → Type 0 where
  here : Reach q q
  next : {a b : Quality} → Reach q a → Step a b → Reach q b

Step-IsSynced : {q r : Quality} → Step q r → IsSynced q → IsSynced r
unfolding apply_pending_configuration apply_fx watch_fps set_quality set_fx set_bloom_suppressed
Step-IsSynced {q} frame_configured h a e f = ground (arith, h a)
Step-IsSynced {q} (frame_timed delta) h a e f = ground (arith, h a)
Step-IsSynced {q} (quality_set name) h a e f = ground (arith, h a)
Step-IsSynced {q} (fx_set fx) h a e f = cc
Step-IsSynced {q} (bloom_set b) h a e f = ground (arith, h a)

Reach-IsSynced : {q r : Quality} → IsSynced q → Reach q r → IsSynced r
Reach-IsSynced h here = h
Reach-IsSynced h (next r s) = Step-IsSynced s (Reach-IsSynced h r)

-- After any history of settings and frames on a new engine, once the pending configuration is applied,
-- what the post stack and the shadow map were told last is what the engine reports as effective, and
-- the shadow map has at most 2048 texels a side.
pub drawn_as_reported :
    (start : Tier) (q : Quality) (a : Applied)
    → Reach (new_quality start) q
    → (apply_pending_configuration q).applied ≡ some a
    → Matches (get_effective_fx q) a
unfolding new_quality
drawn_as_reported start q a r e = apply_pending-Matches q a (Reach-IsSynced (λ b p f. cc) r) e
