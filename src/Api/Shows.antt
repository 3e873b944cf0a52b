-- ===== src/Api/Shows.antt =====
-- What the handlers of api.c meet: the switches and buttons as functions of a state, beside the socket.
use zephyr_esphome.Prelude.{ℕ, ◌+◌, ◌≡◌, ◌∙◌, List, Code, Bool-cases, inl, inr}
use zephyr_esphome.Rpc.Socket.{Socket}
use zephyr_esphome.Rpc.Messages.{Message}
use zephyr_esphome.Rpc.Header.{header_size}
use zephyr_esphome.Rpc.Messages.Form.{WriteForm, form, packed, bare}
use zephyr_esphome.Rpc.Service.{Codec, State, write_as, write_packed, write_bare, rpc_send}
use zephyr_esphome.Api.Base.{Floats, Devices}
use zephyr_esphome.Api.Device.{Desk}

module _ (s : Socket) (c : Codec) where
  open s use {World, send, alloc, release}

  -- A Write function leaves what sending, k_malloc and k_free leave.
  pub write_as-same :
      {A : Type 0} (g : World → A)
      → ((bs : List ℕ) (w : World) → g (send bs w) ≡ g w)
      → ((n : ℕ) (w : World) → g (alloc n w).1 ≡ g w)
      → ((w : World) → g (release w) ≡ g w)
      → (wf : WriteForm) (m : Message) (p : c.Payload) (st : State s c)
      → g (write_as s c wf m p st).1.world ≡ g st.world
  unfolding write_packed write_bare rpc_send
  write_as-same g sends allocs releases (form id packed) m p st =
      elim (Bool-cases
        (alloc (c.packed_size m p + header_size id (c.packed_size m p)) st.world).0) [
          | inl has ↦ rw has (releases _ ∙ sends _ _ ∙ allocs _ st.world)
          | inr out ↦ rw out (allocs _ st.world)
        ]
  write_as-same g sends allocs releases (form id bare) m p st = sends _ st.world

-- The switches and buttons of the device as `desk` over the part `state` of the world, beside the frames
-- `sent` and the bytes `stream` that a client has sent and nobody has read.
pub record Shows (s : Socket) (c : Codec) (f : Floats) (devices : Devices f (s.World)) (D : Type 0)
    (desk : Desk (devices.Dev) D) (state : s.World → D) (sent : s.World → List (List ℕ))
    (stream : s.World → List ℕ) : Type 0 where
  pub sends :
      (bs : List ℕ) (w : s.World)
      → (state (s.send bs w) ≡ state w) × (stream (s.send bs w) ≡ stream w)
  pub allocs :
      (n : ℕ) (w : s.World)
      → (state (s.alloc n w).1 ≡ state w) × (stream (s.alloc n w).1 ≡ stream w)
  pub releases : (w : s.World) → (state (s.release w) ≡ state w) × (stream (s.release w) ≡ stream w)
  pub sets :
      (dev : devices.Dev) (v : Code) (w : s.World)
      → let w' = ((devices.switch dev).set_state v w).1 in
        (state w' ≡ desk.set_state dev v (state w)) × (sent w' ≡ sent w) × (stream w' ≡ stream w)
  pub gets :
      (dev : devices.Dev) (w : s.World)
      → (devices.switch dev).get_state w ≡ desk.get_state dev (state w)
  pub presses :
      (dev : devices.Dev) (w : s.World)
      → let r = devices.on_press dev w in
        (r.0 ≡ (desk.press dev (state w)).0)
        × (state r.1 ≡ (desk.press dev (state w)).1)
        × (sent r.1 ≡ sent w)
        × (stream r.1 ≡ stream w)
