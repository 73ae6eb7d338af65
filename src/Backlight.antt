-- ===== src/Backlight.antt =====
-- rumcake/src/backlight: the three kinds of backlight, each with its own effects and commands.
pub mod Simple
pub mod SimpleMatrix
pub mod RgbMatrix
pub mod Task
pub mod Saving
