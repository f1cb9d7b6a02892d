-- ===== src/User.antt =====
-- The user library and programs.
pub mod Matmal
pub mod Bank
pub mod ProCon
pub mod Api
pub mod Fruit
pub mod File
pub mod Letters
pub mod Hello
