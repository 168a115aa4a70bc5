-- ===== src/Post/Gates.antt =====
-- post.js: lemmas on the passes that are on after a history of calls.
use aetheldesk.Base.{
  ℕ, ◌≤◌, ◌≡◌, ◌≢◌, Bool, true, false, not, ◌&&◌, Option, none, some, List, [], ◌∷◌, if◌then◌else◌,
  arith, is_some,
}
use aetheldesk.Post.{
  NextOptions, PostFx, Atmosphere, View, set_options, set_light_world_position, set_size, render,
  dispose,
}

pub data Call : Type 0 where
  sets_options : Option NextOptions → Call
  moves_light : Call
  sets_size : ℕ → ℕ → ℕ → Call
  renders : View → Option Atmosphere → ℕ → Bool → Call
  disposes : Call

unfoldable pub perform : Call → PostFx → PostFx
perform (sets_options next) p = set_options next p
perform moves_light p = set_light_world_position p
perform (sets_size ratio width height) p = set_size ratio width height p
perform (renders view a elapsed reduced) p = render view a elapsed reduced p
perform disposes p = dispose p

unfoldable pub perform_all : List Call → PostFx → PostFx
unfolding perform
perform_all [] p = p
perform_all (k ∷ ks) p = perform_all ks (perform k p)

pub record IsGated (hdr : Bool) (p : PostFx) : Type 0 where
  pub profile : p.hdr ≡ hdr
  pub bloom : p.bloom_enabled ≡ (hdr && p.options.bloom)
  pub no_shafts : (p.shafts_enabled && not hdr) ≡ false
  pub texels : p.texels ≡ (p.composer_width, p.composer_height)
  pub wide : 1 ≤ p.composer_width
  pub high : 1 ≤ p.composer_height
  pub once : p.disposals ≡ (if p.disposed then 1 else 0)

-- A frame draws the shafts only with a float target, the option on, an atmosphere and a light whose place is
-- known and which is in front of the camera, and with motion as usual.
pub render_shafts :
    (view : View) (a : Option Atmosphere) (elapsed : ℕ) (reduced : Bool) (p : PostFx)
    → (render view a elapsed reduced p).shafts_enabled ≡ true
    → (p.hdr ≡ true)
      × (p.options.shafts ≡ true)
      × (p.light_world_set ≡ true)
      × (reduced ≡ false)
      × (is_some a ≡ true)
      × (view ≢ View.behind)
unfolding render
render_shafts view none elapsed reduced p h = cc
render_shafts View.behind (some a) elapsed reduced p h = ground arith
render_shafts (View.offscreen off) (some a) elapsed reduced p h = ground arith
