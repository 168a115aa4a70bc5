-- ===== src/Atmosphere/Stops.antt =====
-- frontend/src/3d/atmosphere.js: the stops of the grade. Elevations are in hundredths of a degree, the
-- scalars in parts of 100,000; a colour is its code.
use aetheldesk.Base.{ℕ, List, [], ◌∷◌}
use aetheldesk.Int.{ℤ, pos, negsuc}

-- COLOR_KEYS and SCALAR_KEYS
pub data ColorKey : Type 0 where
  sky_top sky_horizon sky_bottom sun fog key ambient_sky ambient_ground : ColorKey

pub data ScalarKey : Type 0 where
  sun_intensity fog_density key_intensity ambient_intensity exposure rayleigh_strength : ScalarKey
  mie_strength mie_g twilight_strength night_strength cloud_light cloud_opacity : ScalarKey

pub record Stop : Type 0 where
  pub elev : ℤ
  pub color : ColorKey → ℕ
  pub scalar : ScalarKey → ℕ

abbrev pub deep_night_color : ColorKey → ℕ
deep_night_color sky_top = 0x070b18
deep_night_color sky_horizon = 0x141d33
deep_night_color sky_bottom = 0x05070f
deep_night_color sun = 0x8fa6d8
deep_night_color fog = 0x0d1424
deep_night_color key = 0x93a9d6
deep_night_color ambient_sky = 0x2b3552
deep_night_color ambient_ground = 0x0a0e18

abbrev pub deep_night_scalar : ScalarKey → ℕ
deep_night_scalar sun_intensity = 0
deep_night_scalar fog_density = 420
deep_night_scalar key_intensity = 75000
deep_night_scalar ambient_intensity = 62000
deep_night_scalar exposure = 106000
deep_night_scalar rayleigh_strength = 8000
deep_night_scalar mie_strength = 0
deep_night_scalar mie_g = 72000
deep_night_scalar twilight_strength = 0
deep_night_scalar night_strength = 100000
deep_night_scalar cloud_light = 34000
deep_night_scalar cloud_opacity = 36000

abbrev pub deep_night : Stop
deep_night = record { elev = negsuc 8999; color = deep_night_color; scalar = deep_night_scalar }

abbrev pub nautical_twilight_color : ColorKey → ℕ
nautical_twilight_color sky_top = 0x101a33
nautical_twilight_color sky_horizon = 0x3a3358
nautical_twilight_color sky_bottom = 0x0a0f1e
nautical_twilight_color sun = 0xc98a86
nautical_twilight_color fog = 0x22243f
nautical_twilight_color key = 0xa9a2c8
nautical_twilight_color ambient_sky = 0x4a4a72
nautical_twilight_color ambient_ground = 0x12141f

abbrev pub nautical_twilight_scalar : ScalarKey → ℕ
nautical_twilight_scalar sun_intensity = 0
nautical_twilight_scalar fog_density = 380
nautical_twilight_scalar key_intensity = 70000
nautical_twilight_scalar ambient_intensity = 50000
nautical_twilight_scalar exposure = 105000
nautical_twilight_scalar rayleigh_strength = 16000
nautical_twilight_scalar mie_strength = 4000
nautical_twilight_scalar mie_g = 74000
nautical_twilight_scalar twilight_strength = 28000
nautical_twilight_scalar night_strength = 86000
nautical_twilight_scalar cloud_light = 38000
nautical_twilight_scalar cloud_opacity = 42000

abbrev pub nautical_twilight : Stop
nautical_twilight = record {
  elev = negsuc 1199;
  color = nautical_twilight_color;
  scalar = nautical_twilight_scalar;
}

abbrev pub civil_twilight_color : ColorKey → ℕ
civil_twilight_color sky_top = 0x1d2b4d
civil_twilight_color sky_horizon = 0x8a6a72
civil_twilight_color sky_bottom = 0x141a2c
civil_twilight_color sun = 0xe0917a
civil_twilight_color fog = 0x4a4358
civil_twilight_color key = 0xd69a86
civil_twilight_color ambient_sky = 0x6d7a9c
civil_twilight_color ambient_ground = 0x1b1c28

abbrev pub civil_twilight_scalar : ScalarKey → ℕ
civil_twilight_scalar sun_intensity = 42000
civil_twilight_scalar fog_density = 340
civil_twilight_scalar key_intensity = 105000
civil_twilight_scalar ambient_intensity = 58000
civil_twilight_scalar exposure = 104000
civil_twilight_scalar rayleigh_strength = 46000
civil_twilight_scalar mie_strength = 34000
civil_twilight_scalar mie_g = 78000
civil_twilight_scalar twilight_strength = 92000
civil_twilight_scalar night_strength = 38000
civil_twilight_scalar cloud_light = 54000
civil_twilight_scalar cloud_opacity = 62000

abbrev pub civil_twilight : Stop
civil_twilight = record {
  elev = negsuc 399;
  color = civil_twilight_color;
  scalar = civil_twilight_scalar;
}

abbrev pub golden_hour_color : ColorKey → ℕ
golden_hour_color sky_top = 0x3f5f8c
golden_hour_color sky_horizon = 0xd99a6c
golden_hour_color sky_bottom = 0x2a3550
golden_hour_color sun = 0xffbb7a
golden_hour_color fog = 0x6b5f5e
golden_hour_color key = 0xffb277
golden_hour_color ambient_sky = 0x93a3c0
golden_hour_color ambient_ground = 0x3a3a42

abbrev pub golden_hour_scalar : ScalarKey → ℕ
golden_hour_scalar sun_intensity = 90000
golden_hour_scalar fog_density = 140
golden_hour_scalar key_intensity = 170000
golden_hour_scalar ambient_intensity = 66000
golden_hour_scalar exposure = 102000
golden_hour_scalar rayleigh_strength = 78000
golden_hour_scalar mie_strength = 76000
golden_hour_scalar mie_g = 82000
golden_hour_scalar twilight_strength = 100000
golden_hour_scalar night_strength = 4000
golden_hour_scalar cloud_light = 86000
golden_hour_scalar cloud_opacity = 88000

abbrev pub golden_hour : Stop
golden_hour = record { elev = pos 200; color = golden_hour_color; scalar = golden_hour_scalar }

abbrev pub warm_morning_color : ColorKey → ℕ
warm_morning_color sky_top = 0x355e91
warm_morning_color sky_horizon = 0x8e7a66
warm_morning_color sky_bottom = 0x3a5273
warm_morning_color sun = 0xffdcae
warm_morning_color fog = 0x74808f
warm_morning_color key = 0xffe2bb
warm_morning_color ambient_sky = 0xa9c0dc
warm_morning_color ambient_ground = 0x55555c

abbrev pub warm_morning_scalar : ScalarKey → ℕ
warm_morning_scalar sun_intensity = 100000
warm_morning_scalar fog_density = 120
warm_morning_scalar key_intensity = 200000
warm_morning_scalar ambient_intensity = 72000
warm_morning_scalar exposure = 100000
warm_morning_scalar rayleigh_strength = 94000
warm_morning_scalar mie_strength = 52000
warm_morning_scalar mie_g = 80000
warm_morning_scalar twilight_strength = 46000
warm_morning_scalar night_strength = 0
warm_morning_scalar cloud_light = 94000
warm_morning_scalar cloud_opacity = 96000

abbrev pub warm_morning : Stop
warm_morning = record { elev = pos 1200; color = warm_morning_color; scalar = warm_morning_scalar }

abbrev pub midday_color : ColorKey → ℕ
midday_color sky_top = 0x256fa7
midday_color sky_horizon = 0x789bb7
midday_color sky_bottom = 0x386f9d
midday_color sun = 0xfff4e0
midday_color fog = 0x70869a
midday_color key = 0xfff3df
midday_color ambient_sky = 0xafc9e0
midday_color ambient_ground = 0x62646a

abbrev pub midday_scalar : ScalarKey → ℕ
midday_scalar sun_intensity = 100000
midday_scalar fog_density = 85
midday_scalar key_intensity = 215000
midday_scalar ambient_intensity = 78000
midday_scalar exposure = 98000
midday_scalar rayleigh_strength = 100000
midday_scalar mie_strength = 36000
midday_scalar mie_g = 78000
midday_scalar twilight_strength = 0
midday_scalar night_strength = 0
midday_scalar cloud_light = 100000
midday_scalar cloud_opacity = 100000

abbrev pub midday : Stop
midday = record { elev = pos 4500; color = midday_color; scalar = midday_scalar }

-- STOPS
abbrev pub stops : List Stop
stops = deep_night ∷ nautical_twilight ∷ civil_twilight ∷ golden_hour ∷ warm_morning ∷ midday ∷ []
