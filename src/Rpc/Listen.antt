-- ===== src/Rpc/Listen.antt =====
-- esphome_rpc_service of esphome_rpc.c: the socket that listens, and the loop over the connections.
pub mod Connections
use zephyr_esphome.Prelude.{
  ℕ, zero, suc, ◌+◌, ◌-◌, Bool, true, false, Option, none, some, if◌then◌else◌, Code,
}
use zephyr_esphome.Rpc.Socket.{Socket}
use zephyr_esphome.Rpc.Service.{Codec, State, Callback, Outcome, returned, blocked, serve}

-- What the two services use of Zephyr to listen, over the state `World` of the sockets. `false` is a
-- negative result.
pub record Net (World : Type 0) : Type 0 where
  -- zsock_socket(family, SOCK_STREAM, 0)
  pub open_server : World → Bool × World
  -- zsock_getsockopt(fd, IPPROTO_IPV6, IPV6_V6ONLY, ...): `none` is an error, else whether the option is on
  pub v6only : World → Option Bool × World
  -- zsock_setsockopt to 0; its result is only logged
  pub clear_v6only : World → World
  pub bind : World → Bool × World
  pub listen : World → Bool × World
  -- zsock_close of the socket that listens
  pub close_server : World → World
  -- errno, after the calls before it
  pub errno : World → Code

module _ {World : Type 0} (net : Net World) where
  -- Where IPV6_V6ONLY is on, it is turned off.
  unfoldable pub share_v4 : World → World
  share_v4 w =
      let (o, w') = net.v6only w in
      elim o [ none ↦ w' | some on ↦ if on then net.clear_v6only w' else w' ]

  -- From zsock_socket to zsock_listen: `none` where the socket listens, else what is returned.
  unfoldable pub start_listening : World → Option Code × World
  start_listening w =
      let (opened, w₁) = net.open_server w in
      let (bound, w₂) = net.bind (share_v4 w₁) in
      let (listens, w₃) = net.listen w₂ in
      if opened
      then (if bound
          then (if listens
              then (none, w₃)
              else (some (net.errno (net.close_server w₃)), net.close_server w₃))
          else (some (net.errno (net.close_server w₂)), net.close_server w₂))
      else (some (net.errno w₁), w₁)

module _ (s : Socket) (c : Codec) (callback : Callback s c) where
  open s use {World, accept}

  -- The outer loop, for `connections` calls of zsock_accept at most; `requests`, `rounds` and `val` are
  -- those of `serve`. A call that fails is repeated at once.
  unfoldable pub accept_loop :
      (connections requests rounds val : ℕ) → State s c → Outcome × State s c
  accept_loop zero requests rounds val st = (blocked, st)
  accept_loop (suc connections) requests rounds val st =
      let (accepted, w) = accept st.world in
      let (out, st') = serve s c callback requests rounds val (record st { world = w }) in
      elim accepted [
        | true ↦ elim out [
          | returned ret ↦ accept_loop connections requests rounds val st'
          | blocked ↦ (blocked, st')
        ]
        | false ↦ accept_loop connections requests rounds val (record st { world = w })
      ]

  -- esphome_rpc_service
  unfoldable pub rpc_service :
      Net World → (connections requests rounds val : ℕ) → State s c → Outcome × State s c
  rpc_service net connections requests rounds val st =
      let (failure, w) = start_listening net st.world in
      let st' : State s c = record st { world = w } in
      elim failure [
        | some error ↦ (returned error, st')
        | none ↦ accept_loop connections requests rounds val st'
      ]
