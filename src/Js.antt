-- ===== src/Js.antt =====
-- The JavaScript values that the panel's code inspects.
pub mod Value
pub mod Text
pub mod Print
