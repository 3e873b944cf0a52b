-- ===== src/Rpc/Messages/Form.antt =====
-- What the Read and Write functions of esphome_rpc.c have in common.
use zephyr_esphome.Prelude.{ℕ}

-- A message with a payload, which protobuf-c encodes, or without one.
pub data Shape : Type 0 where
  packed bare : Shape

-- What a Write function puts on the wire.
pub data WriteForm : Type 0 where
  form : (rpc_id : ℕ) → Shape → WriteForm

abbrev pub rpc_id : WriteForm → ℕ
rpc_id (form n sh) = n

abbrev pub shape : WriteForm → Shape
shape (form n sh) = sh
