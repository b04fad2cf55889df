-- ===== src/Encoding.antt =====
-- tornado/util/comm.cpp: the text encodings of byte strings. `char` is signed, as it is on the
-- x86-64 targets of the build.
pub mod Hex
pub mod Base64
mod Tests
