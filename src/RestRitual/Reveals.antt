-- ===== src/RestRitual/Reveals.antt =====
-- The completions that the tracker of rest-ritual.js reveals over a page's life.
use aetheldesk.Base.{ℕ, Option, none, some, List, [], ◌∷◌, arith}
use aetheldesk.Js.{Value}
use aetheldesk.RestRitual.{normalize_reward_id}
use aetheldesk.RestRitual.Tracker.{Tracker, observe, observe_id, revealed, Rises, raised}

Rises-none : (o : Option ℕ) (xs : List ℕ) → Rises o xs → Rises none xs
Rises-none none xs h = h
Rises-none (some n) [] h = h
Rises-none (some n) (x ∷ xs) h = h.1

-- Whatever ids arrive, in any order and however often, the revealed ones rise strictly, from above
-- the id that was observed before.
pub revealed-Rises : (t : Tracker) (vs : List Value) → Rises t.observed (revealed t vs)
unfolding revealed observe observe_id
revealed-Rises t [] = tt
revealed-Rises t (v ∷ vs) = ground (
  arith,
  revealed-Rises (observe t v).0 vs,
  Rises-none (raised (normalize_reward_id v) t.observed) (revealed (observe t v).0 vs),
)
