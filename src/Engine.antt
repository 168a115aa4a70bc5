-- ===== src/Engine.antt =====
-- frontend/src/3d/engine.js: the quality ladder with the user's effect switches
-- (`Engine/Quality.antt`), the size of the drawing buffer
-- (`Engine/Resolution.antt`), and the life of the frame loop (`Engine/Frames.antt`). The renderer, the
-- post stack and the camera are three.js and are seen only by what they are told.
pub mod Tiers
pub mod Quality
pub mod Resolution
pub mod Shadows
pub mod Pointer
pub mod Resources
pub mod Frames
mod Tests
