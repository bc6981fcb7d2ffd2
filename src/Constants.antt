-- ===== src/Constants.antt =====
-- inferui/inferui/model/util/constants.h and constants.cpp.
pub mod Names
pub mod Xml
pub mod Ui
pub mod Output
pub mod Defs
pub mod Distinct
