-- ===== src/Lib.antt =====
-- The browser client of AethelDesk: a page that shows a shared room, with its focus timer and breaks,
-- over a 3D scene. The library models the client's logic; each module stands for a file under
-- frontend/, function by function, with the names of the source in snake case.
--
-- How the parts interact. `app.js` opens a room: `room-websocket.js` delivers snapshots to its
-- `applyState`, which gives them to `rest-ritual.js` (the break panel), to `scenes.js` (the scene and
-- the reward) and to the controls. `scenes.js` owns the engine and the scene manager and stores the
-- chosen scene through `storage.js`. `room-auth.js` asks for the PIN when the socket has no token or is
-- refused. The dialogs share the helpers of `dom.js`.
--
-- Which file models what:
--   Base, Js, Int, Arrays  shared names; the JavaScript values that are told apart; signed numbers;
--                          buffers that are overwritten in place
--   Storage                frontend/src/storage.js
--   Dom                    frontend/src/dom.js: hidden controls and modal isolation; Dom/Trap the focus
--                          trap, Dom/Debounce the debounce
--   Panels                 which dialog is open: display-settings.js, scene-picker.js, room-auth.js and
--                          the confirmation of app.js
--   RoomAuth               frontend/src/room-auth.js, joining with a PIN
--   DisplaySettings        frontend/src/display-settings.js, the switches, with the parts of scenes.js
--                          that store and apply them
--   TimerControls          frontend/src/timer-controls.js; TimerControls/Texts the texts of times,
--                          TimerControls/Waiting the focus that waits for a row
--   Socket                 frontend/src/room-websocket.js
--   Room                   frontend/app.js, `applyState`
--   Lobby                  frontend/lobby.js, creating and joining a room; Lobby/Section the code's section
--   RestRitual             frontend/src/rest-ritual.js: the model of a snapshot; RestRitual/Tracker the
--                          reveal tracker, RestRitual/Panel the document, RestRitual/View the controller
--   RewardConstellation    frontend/src/3d/reward-constellation.js, and `updateReward` of scenes.js
--   SceneManager           frontend/src/3d/scenes/scene-manager.js: SceneManager/State the scenes and
--                          their failures, SceneManager/Updates the calls of the frame loop and the
--                          settings, SceneManager/Compilation the shader compilation
--   Engine/Tiers, Quality  frontend/src/3d/engine.js, tiers, effects and the frame rate watchdog
--   Engine/Resolution      frontend/src/3d/engine.js, the size of the drawing buffer, with the post stack;
--                          Engine/Shadows the light that casts, Engine/Pointer the turning of the camera,
--                          Engine/Resources what is disposed of with the scene
--   Engine/Frames          frontend/src/3d/engine.js, the life of the frame loop
--   RoomRenderer           frontend/src/room-renderer.js, the timer and the session dots;
--                          RoomRenderer/Sky the 2D stars, clouds and satellite
--   Celestial              frontend/src/3d/celestial.js: what the sky shows of the sun, the moon and the
--                          session; Celestial/Meteor the shooting star, Celestial/Trail the satellite's
--   Atmosphere             frontend/src/3d/atmosphere.js; Atmosphere/Stops its table
--   Post                   frontend/src/3d/post.js, options, sizes and the gates of the passes
--   Seeds                  the random numbers of reward-constellation.js, celestial.js and the scenes
--   City, Forest           frontend/src/3d/scenes: the traffic of city-scene.js (City/Night its frames),
--                          the rocks and logs of forest-scene.js (Forest/Motion embers, mist and smoke)
--   Controller             frontend/scenes.js: names, commits and the 2D fallback; Controller/Frames the
--                          start and the frames, Controller/Transition `switchScene`, Controller/Camera
--                          the field of view and the place of the reward
--
-- How state and time are modelled. A closure's variables and its part of the document are a record,
-- and each function is a map on it. Code that waits (`switchScene`, `joinRoomWithPin`) is one function
-- for each stretch between two waits, and a step relation or a list of events lets anything happen in
-- between. Scenes may throw at any call: what they do is an argument, given by the number of calls
-- made before. JSON.parse, JSON.stringify, encodeURIComponent, `trim`, Math.exp, the tree of the
-- document and the suppression of bloom by a scene are arguments too.
--
-- Bounds and units. `switchScene` of the scene manager calls itself for the fallback, and there not
-- again: `switch_on` has fuel, `switch_scene` gives it 2 (`switch_on_enough` of SceneManager/Recovery:
-- more fuel changes nothing). All other loops are structural.
-- Ratios of the scene manager are in units of 1/10000, of the engine in units of 1/100,000,000 (its
-- tolerance for a changed ratio is 0.0001), of the mark in hundredths, frame
-- times in microseconds, the clock in milliseconds; the header of a file has its other units. Numbers are
-- natural numbers, signed ones where the code has elevations and places, and a value that is not a
-- finite number, or is negative, is told apart where the code does. A floating-point number is taken
-- as exact in its unit, and a fraction is kept as its two parts; the 32-bit numbers of the random
-- generators wrap around as they do in the source. What the code leaves to Three.js or Math (smoothstep
-- of an elevation, Math.exp, Math.sqrt, mixed colours, points of space) is an argument, and so are the
-- random values.
--
-- Not modelled: what only draws (geometry, materials, shaders and colours of the scenes and of the sky,
-- the place of the camera, frontend/src/3d/sky-dome.js, sun-shafts.js and ocean-wave-model.js, most of
-- frontend/src/3d/scenes, frontend/src/lobby-sky.js), the places of the bodies and of their light, the
-- clock, the chime and the wording of texts, the server (backend/, in Python), the style sheets, the
-- build and the tests.
pub mod Base
pub mod Js
pub mod Storage
pub mod TimerControls
pub mod DisplaySettings
pub mod RoomAuth
pub mod RewardConstellation
pub mod Panels
pub mod Dom
pub mod RestRitual
pub mod Socket
pub mod Room
pub mod SceneManager
pub mod Engine
pub mod Controller
pub mod Lobby
pub mod RoomRenderer
pub mod Arrays
pub mod Int
pub mod Celestial
pub mod Post
pub mod Atmosphere
pub mod Seeds
pub mod City
pub mod Forest
