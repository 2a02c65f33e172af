-- ===== src/GoLib.antt =====
-- The parts of Go's standard library that RedLab's packages use, written out: texts, paths and
-- hexadecimal digits.
pub mod Strings
pub mod Hex
pub mod Path
pub mod Sort
pub mod Strconv
pub mod Time
pub mod Split
pub mod Lines
pub mod Fmt
