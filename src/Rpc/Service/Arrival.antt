-- ===== src/Rpc/Service/Arrival.antt =====
-- A message that arrives whole at esphome_read_request: what the socket, the heap and the codec do.
use zephyr_esphome.Prelude.{
  ℕ, suc, ◌+◌, ◌<◌, ◌^◌, ◌≡◌, ◌≢◌, ◌∙◌, ap, arith, true, false, none, some, length, Code,
  is_nonzero,
}
use zephyr_esphome.Rpc.Socket.{Socket, got, Delivers}
use zephyr_esphome.Rpc.Header.{encode_header}
use zephyr_esphome.Rpc.Messages.{Message, write_form}
use zephyr_esphome.Rpc.Messages.Form.{packed, bare, rpc_id, shape}
use zephyr_esphome.Rpc.Service.{Codec, State, Callback, returned, read_request, serve}
use zephyr_esphome.Rpc.Service.Read.{read_request-message_write, read_request-message_write_bare}

module _ (s : Socket) (c : Codec) where
  open s use {World, recv, alloc, close}
  open c use {Payload, unpack, packed_size, pack}

  -- From `w`, the message `m` with the payload `p` arrives as its Write function sends it: the header
  -- byte by byte, a block from the heap, and the payload at once, which the codec decodes. What is left
  -- is `w'`.
  pub record Arrives (m : Message) (p : Payload) (w w' : World) : Type 0 where
    pub headed : World
    pub with_block : World
    pub has_payload : shape (write_form m) ≡ packed
    pub sized : packed_size m p ≡ length (pack m p)
    pub nonempty : packed_size m p ≢ 0
    pub small : packed_size m p < 2 ^ 32
    pub decoded : unpack m (pack m p) ≡ some p
    pub header : Delivers s (encode_header (rpc_id (write_form m)) (packed_size m p)) w headed
    pub block : alloc (packed_size m p) headed ≡ (true, with_block)
    pub body : recv (packed_size m p) with_block ≡ (got (pack m p), w')

  -- The state in which the handler of a payload runs.
  abbrev pub arrived : State s c → World → State s c
  arrived st w = record { world = w; blocks = st.blocks + 1 }

  module _ (callback : Callback s c) where
    pub read_request-Arrives :
        (m : Message) (p : Payload) (rounds val : ℕ) (st : State s c) (w : World)
        → Arrives m p st.world w
        → let r = callback m (some p) (arrived st w) in
          read_request s c callback (suc rounds) val st ≡ (returned r.0, r.1)
    read_request-Arrives m p rounds val st w a =
        read_request-message_write s c callback m p rounds val st a.headed a.with_block w
          a.has_payload a.sized a.nonempty a.small a.decoded a.header a.block a.body

    -- A handler's result other than 0 ends the connection.
    pub serve_ends :
        (requests rounds val : ℕ) (st st' : State s c) (ret : Code)
        → read_request s c callback rounds val st ≡ (returned ret, st')
        → is_nonzero ret ≡ true
        → serve s c callback (suc requests) rounds val st
          ≡ (returned ret, record st' { world = close st'.world })
    unfolding serve
    serve_ends requests rounds val st st' ret e n = ground (arith, e, n)

    -- A handler's result 0 lets it go on.
    pub serve_goes_on :
        (requests rounds val : ℕ) (st st' : State s c) (ret : Code)
        → read_request s c callback rounds val st ≡ (returned ret, st')
        → is_nonzero ret ≡ false
        → serve s c callback (suc requests) rounds val st
          ≡ serve s c callback requests rounds val st'
    unfolding serve
    serve_goes_on requests rounds val st st' ret e n = ground (arith, e, n)

    pub serve-Arrives :
        (m : Message) (p : Payload) (requests rounds val : ℕ) (st st' : State s c) (w : World)
        (ret : Code)
        → Arrives m p st.world w
        → callback m (some p) (arrived st w) ≡ (ret, st')
        → is_nonzero ret ≡ true
        → serve s c callback (suc requests) (suc rounds) val st
          ≡ (returned ret, record st' { world = close st'.world })
    serve-Arrives m p requests rounds val st st' w ret a e =
        serve_ends requests (suc rounds) val st st' ret (
          read_request-Arrives m p rounds val st w a
          ∙ ap (λ (t : Code × State s c). (returned t.0, t.1)) e)

    pub serve_bare :
        (m : Message) (requests rounds val : ℕ) (st st' : State s c) (w : World) (ret : Code)
        → shape (write_form m) ≡ bare
        → Delivers s (encode_header (rpc_id (write_form m)) 0) st.world w
        → callback m none (record st { world = w }) ≡ (ret, st')
        → is_nonzero ret ≡ true
        → serve s c callback (suc requests) (suc rounds) val st
          ≡ (returned ret, record st' { world = close st'.world })
    serve_bare m requests rounds val st st' w ret sh d e =
        serve_ends requests (suc rounds) val st st' ret (
          read_request-message_write_bare s c callback m rounds val st w sh d
          ∙ ap (λ (t : Code × State s c). (returned t.0, t.1)) e)
