-- ===== src/Rpc/Messages/Bluetooth.antt =====
-- The messages of esphome_rpc.c for Bluetooth devices, and reading from them.
use zephyr_esphome.Prelude.{ℕ, List, [], ◌∷◌}
use zephyr_esphome.Rpc.Messages.Form.{Shape, packed, WriteForm, form}

pub data BluetoothMessage : Type 0 where
  subscribe_bluetooth_le_advertisements_request : BluetoothMessage
  bluetooth_le_advertisement_response : BluetoothMessage
  bluetooth_le_raw_advertisements_response : BluetoothMessage
  bluetooth_device_request : BluetoothMessage
  bluetooth_device_connection_response : BluetoothMessage
  bluetooth_gatt_get_services_request : BluetoothMessage
  bluetooth_gatt_get_services_response : BluetoothMessage
  bluetooth_gatt_get_services_done_response : BluetoothMessage
  bluetooth_gatt_read_request : BluetoothMessage
  bluetooth_gatt_read_response : BluetoothMessage

-- The Read functions: which decode a payload.
unfoldable pub read_shape : BluetoothMessage → Shape
read_shape subscribe_bluetooth_le_advertisements_request = packed
read_shape bluetooth_le_advertisement_response = packed
read_shape bluetooth_le_raw_advertisements_response = packed
read_shape bluetooth_device_request = packed
read_shape bluetooth_device_connection_response = packed
read_shape bluetooth_gatt_get_services_request = packed
read_shape bluetooth_gatt_get_services_response = packed
read_shape bluetooth_gatt_get_services_done_response = packed
read_shape bluetooth_gatt_read_request = packed
read_shape bluetooth_gatt_read_response = packed

-- The Write functions: the number in the header, and which encode a payload.
unfoldable pub write_form : BluetoothMessage → WriteForm
write_form subscribe_bluetooth_le_advertisements_request = form 66 packed
write_form bluetooth_le_advertisement_response = form 67 packed
write_form bluetooth_le_raw_advertisements_response = form 93 packed
write_form bluetooth_device_request = form 68 packed
write_form bluetooth_device_connection_response = form 69 packed
write_form bluetooth_gatt_get_services_request = form 70 packed
write_form bluetooth_gatt_get_services_response = form 71 packed
write_form bluetooth_gatt_get_services_done_response = form 72 packed
write_form bluetooth_gatt_read_request = form 73 packed
write_form bluetooth_gatt_read_response = form 74 packed

-- The cases of the switch in esphome_read_request.
unfoldable pub cases : List (ℕ × BluetoothMessage)
cases =
    (66, subscribe_bluetooth_le_advertisements_request)
    ∷ (67, bluetooth_le_advertisement_response)
    ∷ (93, bluetooth_le_raw_advertisements_response)
    ∷ (68, bluetooth_device_request)
    ∷ (69, bluetooth_device_connection_response)
    ∷ (70, bluetooth_gatt_get_services_request)
    ∷ (71, bluetooth_gatt_get_services_response)
    ∷ (72, bluetooth_gatt_get_services_done_response)
    ∷ (73, bluetooth_gatt_read_request)
    ∷ (74, bluetooth_gatt_read_response)
    ∷ []
