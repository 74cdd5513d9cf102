-- ===== src/Js.antt =====
-- The parts of the JavaScript standard library that the application's own code leans on: strings
-- of UTF-16 code units, decimal numerals, and the `Date` built-in.
pub mod Text
pub mod Digits
pub mod Bits
pub mod Civil
pub mod Date
