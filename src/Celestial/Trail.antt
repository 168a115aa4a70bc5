-- ===== src/Celestial/Trail.antt =====
-- celestial.js: the trail of the satellite, the last part of `update`.
pub mod Points
use aetheldesk.Base.{
  ℕ, zero, suc, ◌+◌, Bool, true, false, not, ◌&&◌, List, [], ◌∷◌, ltb, if◌then◌else◌,
}
use aetheldesk.Arrays.{get_or, push, replicate}

abbrev pub trail_count : ℕ
trail_count = 40

pub record Trail (P : Type 0) : Type 0 where
  pub history : List P
  pub history_length : ℕ
  pub visible : Bool
  pub points : List P

module _ {P : Type 0} (origin : P) where
  -- The points that are drawn: those of the history, and the newest one in the places that are left.
  unfoldable pub points_from : List P → ℕ → P → ℕ → ℕ → List P
  points_from history len newest i zero = []
  points_from history len newest i (suc n) =
      (if ltb i len then get_or history i origin else newest)
      ∷ points_from history len newest (i + 1) n

  -- `orbit_visible` is that of the session, `place` where the satellite is now.
  unfoldable pub update_trail : Bool → Bool → P → Trail P → Trail P
  unfolding push points_from
  update_trail orbit_visible reduced_motion place t =
      let pushed : List P × ℕ = push origin trail_count place (t.history, t.history_length) in
      if orbit_visible && not reduced_motion
      then record {
        history = pushed.0;
        history_length = pushed.1;
        visible = true;
        points = points_from pushed.0 pushed.1 place 0 trail_count;
      }
      else record t { visible = false; history_length = 0 }

  unfoldable pub create_trail : Trail P
  create_trail = record {
    history = replicate trail_count origin;
    history_length = 0;
    visible = false;
    points = replicate trail_count origin;
  }
