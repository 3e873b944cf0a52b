-- ===== src/Rpc/Service.antt =====
-- esphome_rpc.c: reading a request and passing it on, writing a message, and the loops that serve
-- the connections.
pub mod Write
pub mod Read
pub mod Leak
pub mod Arrival
pub mod Count
pub mod Contract
use zephyr_esphome.Prelude.{
  ℕ, zero, suc, ◌+◌, ◌-◌, List, [], ◌∷◌, ◌++◌, Bool, true, false, Option, none, some, ◌==◌,
  if◌then◌else◌, take, length, Code, neg, eio, enomem, enotsup, success, minus_one, is_nonzero,
}
use zephyr_esphome.Rpc.Socket.{Socket, Recv, lost, got}
use zephyr_esphome.Rpc.Header.{header_size, encode_header, header, bad, waiting, read_header}
use zephyr_esphome.Rpc.Messages.{Message, read_shape, write_form, dispatch}
use zephyr_esphome.Rpc.Messages.Form.{packed, bare, WriteForm, form}

-- The codec that protobuf-c generates for the messages: no part of the code modelled here.
pub record Codec : Type 1 where
  pub Payload : Type 0
  -- NAME__unpack: `none` is NULL
  pub unpack : Message → List ℕ → Option Payload
  -- NAME__get_packed_size
  pub packed_size : Message → Payload → ℕ
  -- the bytes that NAME__pack writes
  pub pack : Message → Payload → List ℕ

-- How a call of esphome_read_request ends; `blocked` is no result of the code: it still reads.
pub data Outcome : Type 0 where
  returned : Code → Outcome
  blocked : Outcome

module _ (s : Socket) (c : Codec) where
  open s use {World, recv, send, alloc, release, accept, close}
  open c use {Payload, unpack, packed_size, pack}

  -- What the functions of this file change: the world, and how many of the blocks that they have
  -- taken from the heap they have not given back.
  pub record State : Type 0 where
    pub world : World
    pub blocks : ℕ

  -- A function of the application, NAMECb: a message without a payload comes as `none`.
  abbrev pub Callback : Type 0
  Callback = Message → Option Payload → State → Code × State

  -- The weak definitions of the NAMECb functions.
  unfoldable pub weak_callback : Callback
  weak_callback m p st = (minus_one, st)

  -- esphome_rpc_send: the result of zsock_send is dropped.
  unfoldable pub rpc_send : List ℕ → State → Code × State
  rpc_send out st = (success, record st { world = send out st.world })

  -- The Write functions of messages with a payload, after the payload's size.
  unfoldable pub write_packed : (rpc_id : ℕ) → Message → Payload → State → Code × State
  write_packed rpc_id m p st =
      let len = packed_size m p in
      let size = len + header_size rpc_id len in
      let (has_out, w) = alloc size st.world in
      let out = take size (encode_header rpc_id len ++ pack m p) in
      let (ret, st') = rpc_send out (record st { world = w; blocks = st.blocks + 1 }) in
      if has_out
      then (ret, record st' { world = release st'.world; blocks = st'.blocks - 1 })
      else (neg enomem, record st { world = w })

  -- Those of messages without one.
  unfoldable pub write_bare : (rpc_id : ℕ) → State → Code × State
  write_bare rpc_id = rpc_send (take (header_size rpc_id 0) (encode_header rpc_id 0))

  abbrev pub write_as : WriteForm → Message → Payload → State → Code × State
  write_as (form rpc_id packed) m p = write_packed rpc_id m p
  write_as (form rpc_id bare) m p = write_bare rpc_id

  -- NAMEWrite
  unfoldable pub message_write : Message → Payload → State → Code × State
  message_write m = write_as (write_form m) m

  module _ (callback : Callback) where
    -- esphome_NAMERead
    unfoldable pub message_read : Message → List ℕ → State → Code × State
    message_read m bytes = elim (read_shape m) [
      | packed ↦ elim (unpack m bytes) [ none ↦ λ st. (neg eio, st) | some p ↦ callback m (some p) ]
      | bare ↦ callback m none
    ]

    -- The switch of esphome_read_request.
    unfoldable pub handle_message : (msg_id : ℕ) → List ℕ → State → Code × State
    handle_message msg_id bytes = elim (dispatch msg_id) [
      | none ↦ λ st. (neg enotsup, st)
      | some m ↦ message_read m bytes
    ]

    -- `zsock_recv` into a block of `len` bytes, and the handling of what it has read. The block is
    -- never given back.
    unfoldable pub read_payload : (msg_id len : ℕ) → State → Code × State
    read_payload msg_id len st =
        let (r, w) = recv len st.world in
        let st' : State = record st { world = w } in
        elim r [
          | lost n ↦ (neg eio, st')
          | got bs ↦ if length bs == len then handle_message msg_id bs st' else (neg eio, st')
        ]

    -- What follows the header: `if (len)`, k_malloc and the rest.
    unfoldable pub read_body : (msg_id len : ℕ) → State → Code × State
    read_body msg_id len st =
        let (has_data, w) = alloc len st.world in
        if len == 0
        then handle_message msg_id [] st
        else if has_data
        then read_payload msg_id len (record st { world = w; blocks = st.blocks + 1 })
        else (neg enomem, record st { world = w })

    -- `rounds` and `val` are those of esphome_read_header.
    unfoldable pub read_request : (rounds val : ℕ) → State → Outcome × State
    read_request rounds val st =
        let (h, w) = read_header s rounds val st.world in
        let st' : State = record st { world = w } in
        elim h [
          | header msg_id len ↦ let (ret, st'') = read_body msg_id len st' in (returned ret, st'')
          | bad ret ↦ (returned ret, st')
          | waiting ↦ (blocked, st')
        ]

    -- The inner loop of esphome_rpc_service, for `requests` requests at most: the first result that
    -- is not 0 ends it, and the connection is closed.
    unfoldable pub serve : (requests rounds val : ℕ) → State → Outcome × State
    serve zero rounds val st = (blocked, st)
    serve (suc requests) rounds val st =
        let (out, st') = read_request rounds val st in
        elim out [
          | returned ret ↦ elim (is_nonzero ret) [
            | true ↦ (returned ret, record st' { world = close st'.world })
            | false ↦ serve requests rounds val st'
          ]
          | blocked ↦ (blocked, st')
        ]
