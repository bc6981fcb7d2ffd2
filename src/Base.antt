-- ===== src/Base.antt =====
-- inferui/base: utilities of the whole program.
pub mod MultiSorted
pub mod Text
