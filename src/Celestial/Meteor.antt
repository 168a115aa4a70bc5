-- ===== src/Celestial/Meteor.antt =====
-- celestial.js: the shooting star of `update`, with the points that are drawn for it. Points of space and
-- their movement are Three.js, and the random values of a frame are its `Draws`: arguments here.
use aetheldesk.Base.{
  ℕ, zero, suc, ◌+◌, ◌-◌, ◌*◌, Bool, true, false, not, ◌&&◌, ◌||◌, List, [], ◌∷◌, ltb, leb,
  if◌then◌else◌,
}
use aetheldesk.Arrays.{get_or, push, replicate}

abbrev pub meteor_trail : ℕ
meteor_trail = 14

pub record Meteor (P : Type 0) : Type 0 where
  pub active : Bool
  pub timer : ℕ
  pub head : P
  pub dir : P
  pub speed : ℕ
  pub age : ℕ
  pub duration : ℕ
  pub history : List P
  pub history_length : ℕ

-- Where a star may start in this frame, and the pause after one that ends in it.
pub record Draws (P : Type 0) : Type 0 where
  pub head : P
  pub dir : P
  pub speed : ℕ
  pub duration : ℕ
  pub pause : ℕ

-- A point of the buffer: parked out of sight, or at a place with an alpha, of which this is the
-- numerator over 14, the duration and `one`.
pub data Vertex (P : Type 0) : Type 0 where
  parked : Vertex P
  lit : P → ℕ → Vertex P

pub record Layer (P : Type 0) : Type 0 where
  pub meteor : Meteor P
  pub visible : Bool
  pub was_visible : Bool
  pub vertices : List (Vertex P)
  pub draw_count : ℕ

-- `travel head dir speed delta` is `head.addScaledVector(dir, speed * delta)`.
module _ {P : Type 0} (origin : P) (travel : P → P → ℕ → ℕ → P) where
  unfoldable pub fly : ℕ → Draws P → Meteor P → Meteor P
  unfolding push
  fly delta d m =
      let head : P = travel m.head m.dir m.speed delta in
      let pushed : List P × ℕ = push origin meteor_trail head (m.history, m.history_length) in
      let ends : Bool = ltb m.duration (m.age + delta) in
      record m {
        active = not ends;
        timer = if ends then d.pause else m.timer;
        head = head;
        age = m.age + delta;
        history = pushed.0;
        history_length = if ends then 0 else pushed.1;
      }

  -- The timer of the source may fall below zero, and is set anew before it counts again.
  unfoldable pub wait : ℕ → Draws P → Meteor P → Meteor P
  wait delta d m =
      if leb m.timer delta
      then record m {
        active = true;
        timer = 0;
        head = d.head;
        dir = d.dir;
        speed = d.speed;
        age = 0;
        duration = d.duration;
        history_length = 0;
      }
      else record m { timer = m.timer - delta }

  unfoldable pub step : ℕ → Draws P → Meteor P → Meteor P
  unfolding fly wait
  step delta d m = if m.active then fly delta d m else wait delta d m

  unfoldable pub vertex : ℕ → Meteor P → ℕ → Vertex P
  vertex moon m t =
      if not m.active || leb m.history_length t
      then parked
      else lit (get_or m.history t origin) ((meteor_trail - t) * (m.duration - m.age) * moon)

  unfoldable pub vertices_from : ℕ → Meteor P → ℕ → ℕ → List (Vertex P)
  unfolding vertex
  vertices_from moon m t zero = []
  vertices_from moon m t (suc n) = vertex moon m t ∷ vertices_from moon m (t + 1) n

  unfoldable pub draw : ℕ → Layer P → Layer P
  unfolding vertices_from
  draw moon l = record l {
    vertices = vertices_from moon l.meteor 0 meteor_trail;
    draw_count = if l.meteor.active then l.meteor.history_length else 0;
  }

  -- The layer has been hidden: what flew is dropped.
  unfoldable pub drop : Layer P → Layer P
  drop l = record l {
    meteor = record (l.meteor) { active = false; history_length = 0 };
    draw_count = 0;
  }

  unfoldable pub update_meteors : ℕ → ℕ → Bool → Draws P → Layer P → Layer P
  unfolding step draw drop
  update_meteors moon delta reduced_motion d l =
      let visible : Bool = not reduced_motion && ltb 60 moon in
      let kept : Layer P = if not visible && l.was_visible then drop l else l in
      let seen : Layer P = record kept { visible = visible; was_visible = visible } in
      if visible then draw moon (record seen { meteor = step delta d seen.meteor }) else seen

  -- A new layer; the timer is random.
  unfoldable pub create_layer : ℕ → Layer P
  create_layer timer = record {
    meteor = record {
      active = false;
      timer = timer;
      head = origin;
      dir = origin;
      speed = 0;
      age = 0;
      duration = 0;
      history = replicate meteor_trail origin;
      history_length = 0;
    };
    visible = false;
    was_visible = false;
    vertices = [];
    draw_count = 0;
  }
