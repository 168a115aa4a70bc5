-- ===== src/RestRitual/Tracker.antt =====
-- `createRewardRevealTracker`: which completions are new since the page began to observe them.
use aetheldesk.Base.{
  ℕ, ◌<◌, ◌≡◌, refl, Bool, true, false, Option, none, some, List, [], ◌∷◌, arith, ltb,
  if◌then◌else◌,
}
use aetheldesk.Js.{Value}
use aetheldesk.RestRitual.{normalize_reward_id}

pub record Tracker : Type 0 where
  pub observed : Option ℕ

pub record Observation : Type 0 where
  pub reward_id : Option ℕ
  pub observed : Option ℕ
  pub reveal : Bool

-- rewardId > observedRewardId, once something was observed
abbrev pub is_newer : Option ℕ → Option ℕ → Bool
is_newer (some id) (some seen) = ltb seen id
is_newer _ _ = false

abbrev pub raised : Option ℕ → Option ℕ → Option ℕ
raised none seen = seen
raised (some id) none = some id
raised (some id) (some seen) = if ltb seen id then some id else some seen

abbrev pub fresh : Tracker
fresh = record { observed = none }

unfoldable pub observe_id : Tracker → Option ℕ → Tracker × Observation
observe_id t id =
    let observed : Option ℕ = raised id t.observed in
    (
      record { observed = observed },
      record { reward_id = id; observed = observed; reveal = is_newer id t.observed },
    )

unfoldable pub observe : Tracker → Value → Tracker × Observation
unfolding observe_id normalize_reward_id
observe t v = observe_id t (normalize_reward_id v)

pub is_newer_lem :
    (a b : Option ℕ)
    → is_newer a b ≡ true
    → (id seen : ℕ) × (a ≡ some id) × (b ≡ some seen) × (seen < id)
is_newer_lem (some id) (some seen) h = (id, seen, refl, refl, ground arith)
is_newer_lem (some id) none h = cc
is_newer_lem none b h = cc

-- The ids that a run of observations reveals, in order.
unfoldable pub revealed : Tracker → List Value → List ℕ
unfolding observe
revealed t [] = []
revealed t (v ∷ vs) =
    let (t', o) = observe t v in
    let rest : List ℕ = revealed t' vs in
    elim o.reward_id [ none ↦ rest | some id ↦ if o.reveal then id ∷ rest else rest ]

-- Strictly rising, and above what was observed; nothing at all before a first observation.
abbrev pub Rises : Option ℕ → List ℕ → Type 0
Rises seen [] = Unit
Rises none (x ∷ xs) = Rises (some x) xs
Rises (some n) (x ∷ xs) = (n < x) × Rises (some x) xs
