-- ===== src/ConstraintType.antt =====
-- ConstraintType of inferui/inferui/model/model.h, with the functions of
-- inferui/inferui/model/model.cpp that classify, split, join, print and parse it.
pub mod Defs
pub mod Laws
pub mod Text
