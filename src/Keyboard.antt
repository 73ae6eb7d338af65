-- ===== src/Keyboard.antt =====
-- rumcake/src/keyboard.rs: the custom keycodes of a layout. The variants of the HID consumer page
-- are those of the crate `usbd_human_interface_device`: their type is the parameter `Consumer`.
use rumcake.Prelude.{ℕ}
use rumcake.Bluetooth.{BluetoothCommand}
use rumcake.Underglow.{UnderglowCommand}
use rumcake.Backlight.Simple
use rumcake.Backlight.SimpleMatrix
use rumcake.Backlight.RgbMatrix

pub data Keycode (Consumer : Type 0) : Type 0 where
  custom : ℕ → Keycode Consumer
  media : Consumer → Keycode Consumer
  underglow : UnderglowCommand → Keycode Consumer
  simple_backlight : Simple.BacklightCommand → Keycode Consumer
  simple_backlight_matrix : SimpleMatrix.BacklightCommand → Keycode Consumer
  rgb_backlight_matrix : RgbMatrix.BacklightCommand → Keycode Consumer
  bluetooth : BluetoothCommand → Keycode Consumer
