-- ===== src/Tests.antt =====
-- Tests of the definitions at concrete inputs, and the properties applied to them.
mod Json
mod Shared
mod Channel
mod Control
mod Spawn
mod Supervision
mod Menu
mod Scalar
mod Graph
mod Routine
mod Helper
mod Crypto
