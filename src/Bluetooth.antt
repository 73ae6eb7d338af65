-- ===== src/Bluetooth.antt =====
-- rumcake/src/bluetooth/mod.rs: the commands of the bluetooth task, with the `usb` feature.
pub data BluetoothCommand : Type 0 where
  toggle_output output_usb output_bluetooth : BluetoothCommand
