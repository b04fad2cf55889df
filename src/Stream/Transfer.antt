-- ===== src/Stream/Transfer.antt =====
-- What tornado/IOStream.cpp does with the bytes themselves.
pub mod Output
pub mod Input
pub mod Requests
pub mod Delivery
