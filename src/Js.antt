-- ===== src/Js.antt =====
-- The JavaScript values that the program reads from the wire, and the conversions it applies.
pub mod Text
pub mod Number
pub mod Parse
pub mod Value
pub mod Result
pub mod Integers
pub mod Json
