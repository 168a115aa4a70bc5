-- ===== src/Post/Tests.antt =====
-- A renderer with half floats, a low sun in view, for the properties of post.js.
use aetheldesk.Base.{◌≡◌, ◌≢◌, refl, true, false, some, none, List, [], ◌∷◌, str_eq, is_some}
use aetheldesk.Int.{pos}
use aetheldesk.Post.{
  Extensions, PostFx, Atmosphere, View, create_post_fx, render, is_faint, set_light_world_position,
}
use aetheldesk.Post.Gates.{
  Call, sets_options, moves_light, sets_size, renders, disposes, render_shafts,
}

abbrev half_floats : Extensions
half_floats = some (λ name. some (str_eq name "EXT_color_buffer_half_float"))

abbrev low_sun : Atmosphere
low_sun = record { daylight = 700; elevation = pos 500 }

abbrev calls : List Call
calls =
    moves_light
    ∷ sets_options (some (record { bloom = some false; grain = none; shafts = none; ca = none }))
    ∷ renders (View.offscreen 20) (some low_sun) 40 false
    ∷ sets_size 20000 640 360
    ∷ disposes
    ∷ disposes
    ∷ []

abbrev lit_stack : PostFx
lit_stack = set_light_world_position (create_post_fx half_floats 100000000 800 600)

render_shafts_example :
    (lit_stack.hdr ≡ true)
    × (lit_stack.options.shafts ≡ true)
    × (lit_stack.light_world_set ≡ true)
    × (false ≡ false)
    × (is_some (some low_sun) ≡ true)
    × (View.offscreen 20 ≢ View.behind)
unfolding render is_faint create_post_fx set_light_world_position
render_shafts_example = render_shafts (View.offscreen 20) (some low_sun) 40 false lit_stack refl
