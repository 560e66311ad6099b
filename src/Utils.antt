-- ===== src/Utils.antt =====
-- Path helpers: hector_recorder/src/utils.cpp, with hector_recorder/include/hector_recorder/utils.h.
pub mod Expand
pub mod Output
pub mod Placement
pub mod Infrastructure
pub mod Clip
mod Tests
