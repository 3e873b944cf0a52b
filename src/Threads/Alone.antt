-- ===== src/Threads/Alone.antt =====
-- The calls of a thread, taken together, are the Write function.
use zephyr_esphome.Prelude.{◌+◌, ◌-◌, ◌≡◌, refl, List, [], ◌∷◌, Bool, true, false, arith}
use zephyr_esphome.Rpc.Socket.{Socket}
use zephyr_esphome.Rpc.Messages.{write_form}
use zephyr_esphome.Rpc.Messages.Form.{Shape, WriteForm, form, packed, bare, shape}
use zephyr_esphome.Rpc.Service.{Codec, State, rpc_send, message_write, write_packed, write_bare}
use zephyr_esphome.Rpc.Service.Write.{message_size}
use zephyr_esphome.Api.Base.{Floats, Response, message_of, Structs}
use zephyr_esphome.Threads.Frames.{outside, Thread, begin, advance, run}

-- The calls of a Write function: one where it sends from the stack or gets no block, otherwise three.
abbrev pub calls : Shape → (has_block : Bool) → List Bool
calls packed true = true ∷ true ∷ true ∷ []
calls packed false = true ∷ []
calls bare has_block = true ∷ []

module _ (s : Socket) (c : Codec) (f : Floats) (structs : Structs f c) where
  -- A Write function that nothing interrupts does what its calls do one by one, also when the heap has no
  -- block.
  pub run-message_write :
      (r : Response f) (rs : List (Response f)) (second : Thread s c f structs) (st : State s c)
      → run s c f structs
          (calls
            (shape (write_form (message_of r)))
            (s.alloc (message_size s c (message_of r) (structs.payload r)) st.world).0)
          (record {
            first = record { left = r ∷ rs; phase = outside };
            second = second;
            state = st;
          })
        ≡ record {
          first = record { left = rs; phase = outside };
          second = second;
          state = (message_write s c (message_of r) (structs.payload r) st).1;
        }
  unfolding run advance begin message_write write_packed write_bare rpc_send
  run-message_write r rs second st =
      by_form (write_form (message_of r)) refl
        (s.alloc (message_size s c (message_of r) (structs.payload r)) st.world).0 refl
    where
      by_form :
          (wf : WriteForm)
          → write_form (message_of r) ≡ wf
          → (b : Bool)
          → (s.alloc (message_size s c (message_of r) (structs.payload r)) st.world).0 ≡ b
          → run s c f structs
              (calls
                (shape (write_form (message_of r)))
                (s.alloc (message_size s c (message_of r) (structs.payload r)) st.world).0)
              (record {
                first = record { left = r ∷ rs; phase = outside };
                second = second;
                state = st;
              })
            ≡ record {
              first = record { left = rs; phase = outside };
              second = second;
              state = (message_write s c (message_of r) (structs.payload r) st).1;
            }
      by_form (form id packed) e true h =
          (let h' = rw e at h in
            let back : st.blocks + 1 - 1 ≡ st.blocks = omega arith in
            rw (e, h', run, e, begin, h, e, back) refl)
      by_form (form id packed) e false h =
          (let h' = rw e at h in rw (e, h', run, e, begin, h, e) refl)
      by_form (form id bare) e b h = rw (e, run, e, begin, e) refl
