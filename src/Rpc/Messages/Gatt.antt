-- ===== src/Rpc/Messages/Gatt.antt =====
-- The messages of esphome_rpc.c for Bluetooth writes, notifications and pairing.
use zephyr_esphome.Prelude.{ℕ, List, [], ◌∷◌}
use zephyr_esphome.Rpc.Messages.Form.{Shape, packed, bare, WriteForm, form}

pub data GattMessage : Type 0 where
  bluetooth_gatt_write_request : GattMessage
  bluetooth_gatt_read_descriptor_request : GattMessage
  bluetooth_gatt_write_descriptor_request : GattMessage
  bluetooth_gatt_notify_request : GattMessage
  bluetooth_gatt_notify_data_response : GattMessage
  subscribe_bluetooth_connections_free_request : GattMessage
  bluetooth_connections_free_response : GattMessage
  bluetooth_gatt_error_response : GattMessage
  bluetooth_gatt_write_response : GattMessage
  bluetooth_gatt_notify_response : GattMessage
  bluetooth_device_pairing_response : GattMessage
  bluetooth_device_unpairing_response : GattMessage
  unsubscribe_bluetooth_le_advertisements_request : GattMessage
  bluetooth_device_clear_cache_response : GattMessage

-- The Read functions: which decode a payload.
unfoldable pub read_shape : GattMessage → Shape
read_shape bluetooth_gatt_write_request = packed
read_shape bluetooth_gatt_read_descriptor_request = packed
read_shape bluetooth_gatt_write_descriptor_request = packed
read_shape bluetooth_gatt_notify_request = packed
read_shape bluetooth_gatt_notify_data_response = packed
read_shape subscribe_bluetooth_connections_free_request = bare
read_shape bluetooth_connections_free_response = packed
read_shape bluetooth_gatt_error_response = packed
read_shape bluetooth_gatt_write_response = packed
read_shape bluetooth_gatt_notify_response = packed
read_shape bluetooth_device_pairing_response = packed
read_shape bluetooth_device_unpairing_response = packed
read_shape unsubscribe_bluetooth_le_advertisements_request = bare
read_shape bluetooth_device_clear_cache_response = packed

-- The Write functions: the number in the header, and which encode a payload.
unfoldable pub write_form : GattMessage → WriteForm
write_form bluetooth_gatt_write_request = form 75 packed
write_form bluetooth_gatt_read_descriptor_request = form 76 packed
write_form bluetooth_gatt_write_descriptor_request = form 77 packed
write_form bluetooth_gatt_notify_request = form 78 packed
write_form bluetooth_gatt_notify_data_response = form 79 packed
write_form subscribe_bluetooth_connections_free_request = form 80 bare
write_form bluetooth_connections_free_response = form 81 packed
write_form bluetooth_gatt_error_response = form 82 packed
write_form bluetooth_gatt_write_response = form 83 packed
write_form bluetooth_gatt_notify_response = form 84 packed
write_form bluetooth_device_pairing_response = form 85 packed
write_form bluetooth_device_unpairing_response = form 86 packed
write_form unsubscribe_bluetooth_le_advertisements_request = form 87 bare
write_form bluetooth_device_clear_cache_response = form 88 packed

-- The cases of the switch in esphome_read_request.
unfoldable pub cases : List (ℕ × GattMessage)
cases =
    (75, bluetooth_gatt_write_request)
    ∷ (76, bluetooth_gatt_read_descriptor_request)
    ∷ (77, bluetooth_gatt_write_descriptor_request)
    ∷ (78, bluetooth_gatt_notify_request)
    ∷ (79, bluetooth_gatt_notify_data_response)
    ∷ (80, subscribe_bluetooth_connections_free_request)
    ∷ (81, bluetooth_connections_free_response)
    ∷ (82, bluetooth_gatt_error_response)
    ∷ (83, bluetooth_gatt_write_response)
    ∷ (84, bluetooth_gatt_notify_response)
    ∷ (85, bluetooth_device_pairing_response)
    ∷ (86, bluetooth_device_unpairing_response)
    ∷ (87, unsubscribe_bluetooth_le_advertisements_request)
    ∷ (88, bluetooth_device_clear_cache_response)
    ∷ []
