-- ===== src/Synthesis.antt =====
-- inferui/inferui/model/synthesis.h: the greedy synthesis of a layout.
pub mod Defs
pub mod Cache
pub mod Guard
pub mod Step
pub mod Loop
pub mod Layout
pub mod Prune
pub mod Rank
pub mod Both
pub mod Apps
