-- ===== src/Geometry.antt =====
-- inferui/base/geomutil.h and inferui/base/geomutil.cpp.
pub mod Defs
pub mod Closest
pub mod Intersects
pub mod Bounds
