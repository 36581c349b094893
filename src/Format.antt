-- ===== src/Format.antt =====
-- src/common/hcs_format.c: the structured data (SD) elements of a log line, printed and read.
pub mod Hex
pub mod Number
pub mod Codec
pub mod Element
pub mod Scan
pub mod Params
pub mod Parse
pub mod Strip
pub mod Header
