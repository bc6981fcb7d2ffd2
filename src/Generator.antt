-- ===== src/Generator.antt =====
-- inferui/inferui/model/constraints.h and constraints.cpp: the candidate attributes of a view.
pub mod Defs
pub mod Equations
pub mod Margins
pub mod Candidates
pub mod Frame
