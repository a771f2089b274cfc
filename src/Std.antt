-- ===== src/Std.antt =====
-- The functions of Go's standard library that the program computes with: decimal numbers of
-- `strconv` and `fmt`, raw base64, and `strings`.
pub mod Float64
pub mod Decimal
pub mod Base64
pub mod Strings
