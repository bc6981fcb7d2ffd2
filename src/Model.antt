-- ===== src/Model.antt =====
-- inferui/inferui/model/model.h and inferui/inferui/model/model.cpp: views, attributes and apps.
pub mod View
pub mod Graph
pub mod App
pub mod Json
