-- ===== src/Threads/Frames.antt =====
-- The threads of the API and of the sensors, which write messages over one socket and one heap at the
-- same time: the calls of their Write functions in any order.
use zephyr_esphome.Prelude.{
  ℕ, ◌+◌, ◌-◌, List, [], ◌∷◌, ◌++◌, Bool, true, false, take, if◌then◌else◌,
}
use zephyr_esphome.Rpc.Socket.{Socket}
use zephyr_esphome.Rpc.Header.{header_size, encode_header}
use zephyr_esphome.Rpc.Messages.{write_form}
use zephyr_esphome.Rpc.Messages.Form.{Shape, packed, bare, rpc_id, shape}
use zephyr_esphome.Rpc.Service.{Codec, State, rpc_send}
use zephyr_esphome.Rpc.Service.Write.{message_size, message_bytes}
use zephyr_esphome.Api.Base.{Floats, Response, message_of, Structs}

-- Where a thread is in a Write function: before it, or with the block that it will send, or with the one
-- that it has sent.
pub data Phase : Type 0 where
  outside sent_block : Phase
  filled : List ℕ → Phase

-- `zs` has the members of `xs` and of `ys`, those of each in their order.
pub data Merge {A : Type 0} : List A → List A → List A → Type 0 where
  neither : Merge [] [] []
  from_first :
      {xs ys zs : List A} (x : A) → Merge xs ys zs → Merge (xs ++ (x ∷ [])) ys (zs ++ (x ∷ []))
  from_second :
      {xs ys zs : List A} (y : A) → Merge xs ys zs → Merge xs (ys ++ (y ∷ [])) (zs ++ (y ∷ []))

module _ (s : Socket) (c : Codec) (f : Floats) (structs : Structs f c) where
  open s use {World, send, alloc, release}

  -- A thread that has the responses `left` to write.
  pub record Thread : Type 0 where
    pub left : List (Response f)
    pub phase : Phase

  -- The first call of a Write function. A message without a payload is sent from the stack.
  unfoldable pub begin : Shape → Response f → State s c → Phase × State s c
  begin packed r st =
      let m = message_of r in
      let p = structs.payload r in
      let size = message_size s c m p in
      let (has_out, w) = alloc size st.world in
      if has_out
      then (
        filled (take size (message_bytes s c m p)),
        record st { world = w; blocks = st.blocks + 1 },
      )
      else (outside, record st { world = w })
  begin bare r st =
      let id = rpc_id (write_form (message_of r)) in
      (outside, (rpc_send s c (take (header_size id 0) (encode_header id 0)) st).1)

  -- The next call of a thread: k_malloc, zsock_send or k_free.
  unfoldable pub advance : Thread → State s c → Thread × State s c
  advance t st = elim t.phase [
    | outside ↦ elim t.left [
      | [] ↦ (t, st)
      | r ∷ rs ↦
          let (ph, st') = begin (shape (write_form (message_of r))) r st in
          (record { left = rs; phase = ph }, st')
    ]
    | filled out ↦ (record t { phase = sent_block }, (rpc_send s c out st).1)
    | sent_block ↦ (
      record t { phase = outside },
      record st { world = release st.world; blocks = st.blocks - 1 },
    )
  ]

  pub record System : Type 0 where
    pub first : Thread
    pub second : Thread
    pub state : State s c

  -- The calls of the two threads, in the order of a schedule: `true` is the first thread.
  unfoldable pub run : List Bool → System → System
  run [] y = y
  run (true ∷ turns) y =
      let (t, st) = advance y.first y.state in run turns (record y { first = t; state = st })
  run (false ∷ turns) y =
      let (t, st) = advance y.second y.state in run turns (record y { second = t; state = st })

  -- The threads before they write anything.
  abbrev pub entering : List (Response f) → Thread
  entering rs = record { left = rs; phase = outside }

  abbrev pub entered : (rs₁ rs₂ : List (Response f)) → State s c → System
  entered rs₁ rs₂ st = record { first = entering rs₁; second = entering rs₂; state = st }
