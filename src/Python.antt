-- ===== src/Python.antt =====
-- What the source uses of Python itself: JSON values, texts, integers and exceptions.
pub mod Text
pub mod Value
pub mod Strings
pub mod Error
pub mod Validate
