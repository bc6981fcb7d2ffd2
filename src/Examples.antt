-- ===== src/Examples.antt =====
-- A small app, and the theorems at it.
mod Sample
mod Types
mod Geometry
mod Graph
mod Walk
mod Screen
mod Texts
mod Threads
mod Apps
