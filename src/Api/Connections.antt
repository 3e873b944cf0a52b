-- ===== src/Api/Connections.antt =====
-- The connections that esphome_rpc_service holds open while it serves the handlers of api.c.
use zephyr_esphome.Prelude.{ℕ, ◌+◌, ◌≤◌, ◌≡◌, List, Code}
use zephyr_esphome.Entity.{Entity}
use zephyr_esphome.Rpc.Socket.{Socket}
use zephyr_esphome.Rpc.Service.{Codec, State}
use zephyr_esphome.Rpc.Service.Count.{message_write-count}
use zephyr_esphome.Rpc.Listen.{accept_loop}
use zephyr_esphome.Rpc.Listen.Connections.{Opens, accept_loop-count}
use zephyr_esphome.Api.Base.{Config, Floats, message_of, Structs, Devices}
use zephyr_esphome.Api.{write, api_callback}
use zephyr_esphome.Api.Keeps.{api_callback-keeps}

-- A switch that is commanded and a button that is pressed open and close no connection.
pub record IsApart (s : Socket) {f : Floats} (devices : Devices f (s.World)) (count : s.World → ℕ)
    : Type 0 where
  pub commanded :
      (d : devices.Dev) (v : Code) (w : s.World)
      → count ((devices.switch d).set_state v w).1 ≡ count w
  pub pressed : (d : devices.Dev) (w : s.World) → count (devices.on_press d w).1 ≡ count w

-- However far the thread of the API comes, over any clients and with the handlers of the program, at
-- most one connection more is open than before it: the next is accepted only when the one before it
-- has been closed. It is supposed that of the calls only zsock_accept opens a connection and only
-- zsock_close closes one.
pub accept_loop-one_more :
    (s : Socket) (c : Codec) (f : Floats) (structs : Structs f c) (devices : Devices f (s.World))
    (config : Config) (es : List (Entity (devices.Dev))) (count : s.World → ℕ)
    (connections requests rounds val : ℕ) (st : State s c)
    → Opens s count
    → IsApart s devices count
    → count
        (accept_loop s c
          (api_callback s c f structs devices config es)
          connections
          requests
          rounds
          val
          st).1.world
      ≤ count st.world + 1
unfolding write
accept_loop-one_more s c f structs devices config es count connections requests rounds val st opens
      apart =
    accept_loop-count s c (api_callback s c f structs devices config es) count opens
      (api_callback-keeps s c f structs devices config (λ t. count t.world)
        (λ r t. message_write-count s count opens.keeps c (message_of r) (structs.payload r) t)
        (λ d v t. apart.commanded d v t.world) (λ d t. apart.pressed d t.world) es)
      connections requests rounds val st
