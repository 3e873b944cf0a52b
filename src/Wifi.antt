-- ===== src/Wifi.antt =====
-- wifi/wifi_credentials.c: the networks of the device tree, tried one after the other.
pub mod Turns
pub mod Connection
use zephyr_esphome.Prelude.{
  ℕ, zero, suc, ◌+◌, ◌%◌, ◌^◌, List, Option, leb, if◌then◌else◌, length, get_elem?,
}

-- wifi_credentials, wifi_cfg.count and wifi_data.selected; `A` is struct wifi_connect_req_params.
pub record Credentials {ℓ} (A : Type ℓ) : Type ℓ where
  pub credentials : List A
  pub count : ℕ
  pub selected : ℕ

module _ {ℓ} {A : Type ℓ} where
  -- The static initialisers: the count is a uint8_t.
  unfoldable pub initial : List A → Credentials A
  initial nets = record { credentials = nets; count = length nets % 2 ^ 8; selected = 0 }

  -- wifi_credentials_get_current; `none` is a read outside the array.
  unfoldable pub get_current : Credentials A → Option A
  get_current c = get_elem? c.credentials c.selected

  -- wifi_credentials_get_next
  unfoldable pub get_next : Credentials A → Option A × Credentials A
  get_next c =
      let selected = (c.selected + 1) % 2 ^ 8 in
      (
        get_elem? c.credentials c.selected,
        record c { selected = if leb c.count selected then 0 else selected },
      )
