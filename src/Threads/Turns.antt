-- ===== src/Threads/Turns.antt =====
-- How many turns a thread needs to write its messages.
use zephyr_esphome.Prelude.{
  ℕ, suc, ◌+◌, ◌-◌, ◌*◌, ◌≤◌, ◌≡◌, refl, ap, List, [], ◌∷◌, Bool, true, false, Bool-cases, inl, inr,
  length, arith,
}
use zephyr_esphome.Rpc.Socket.{Socket}
use zephyr_esphome.Rpc.Messages.{write_form}
use zephyr_esphome.Rpc.Messages.Form.{Shape, packed, bare, shape}
use zephyr_esphome.Rpc.Service.{Codec, State}
use zephyr_esphome.Rpc.Service.Write.{message_size}
use zephyr_esphome.Api.Base.{Floats, Response, message_of, Structs}
use zephyr_esphome.Threads.Frames.{
  Phase, outside, filled, sent_block, Thread, begin, advance, System, run, entering,
}

-- The turns of one thread in a schedule.
unfoldable pub turns_of : Bool → List Bool → ℕ
turns_of b [] = 0
turns_of true (true ∷ turns) = suc (turns_of true turns)
turns_of true (false ∷ turns) = turns_of true turns
turns_of false (true ∷ turns) = turns_of false turns
turns_of false (false ∷ turns) = suc (turns_of false turns)

-- The calls that a Write function has still to make.
abbrev to_go : Phase → ℕ
to_go outside = 0
to_go (filled out) = 2
to_go sent_block = 1

module _ (s : Socket) (c : Codec) (f : Floats) (structs : Structs f c) where
  begin-to_go :
      (sh : Shape) (r : Response f) (st : State s c) → to_go (begin s c f structs sh r st).0 ≤ 2
  unfolding begin
  begin-to_go packed r st =
      elim (Bool-cases (s.alloc (message_size s c (message_of r) (structs.payload r)) st.world).0) [
        | inl has ↦ rw has (omega arith)
        | inr out ↦ rw out (omega arith)
      ]
  begin-to_go bare r st = omega arith

  abbrev cost : Thread s c f structs → ℕ
  cost t = length t.left * 3 + to_go t.phase

  phase-cost :
      (rs : List (Response f)) (ph : Phase) (st : State s c)
      → cost (advance s c f structs (record { left = rs; phase = ph }) st).0
        ≤ length rs * 3 + to_go ph - 1
  unfolding advance
  phase-cost [] outside st = omega arith
  phase-cost (r ∷ rs) outside st =
      omega (arith, begin-to_go (shape (write_form (message_of r))) r st)
  phase-cost rs (filled out) st = omega arith
  phase-cost rs sent_block st = omega arith

  nothing_left :
      (rs : List (Response f)) (ph : Phase)
      → length rs * 3 + to_go ph ≤ 0
      → record { left = rs; phase = ph } ≡ entering s c f structs []
  nothing_left [] outside h = refl
  nothing_left (r ∷ rs) ph h = absurd (omega arith)
  nothing_left [] (filled out) h = absurd (omega arith)
  nothing_left [] sent_block h = absurd (omega arith)

  first-cost :
      (turns : List Bool) (y : System s c f structs)
      → cost (run s c f structs turns y).first ≤ cost y.first - turns_of true turns
  unfolding run turns_of
  first-cost [] y = omega arith
  first-cost (true ∷ turns) y =
      let (t, st) = advance s c f structs y.first y.state in
      omega (
        arith,
        first-cost turns (record y { first = t; state = st }),
        phase-cost y.first.left y.first.phase y.state,
      )
  first-cost (false ∷ turns) y =
      let (t, st) = advance s c f structs y.second y.state in
      first-cost turns (record y { second = t; state = st })

  second-cost :
      (turns : List Bool) (y : System s c f structs)
      → cost (run s c f structs turns y).second ≤ cost y.second - turns_of false turns
  unfolding run turns_of
  second-cost [] y = omega arith
  second-cost (false ∷ turns) y =
      let (t, st) = advance s c f structs y.second y.state in
      omega (
        arith,
        second-cost turns (record y { second = t; state = st }),
        phase-cost y.second.left y.second.phase y.state,
      )
  second-cost (true ∷ turns) y =
      let (t, st) = advance s c f structs y.first y.state in
      second-cost turns (record y { first = t; state = st })

  -- Three turns for each message are enough.
  pub first_through :
      (turns : List Bool) (y : System s c f structs)
      → y.first.phase ≡ outside
      → length y.first.left * 3 ≤ turns_of true turns
      → (run s c f structs turns y).first ≡ entering s c f structs []
  first_through turns y e h =
      let t = (run s c f structs turns y).first in
      nothing_left t.left t.phase (omega (arith, first-cost turns y, ap to_go e))

  pub second_through :
      (turns : List Bool) (y : System s c f structs)
      → y.second.phase ≡ outside
      → length y.second.left * 3 ≤ turns_of false turns
      → (run s c f structs turns y).second ≡ entering s c f structs []
  second_through turns y e h =
      let t = (run s c f structs turns y).second in
      nothing_left t.left t.phase (omega (arith, second-cost turns y, ap to_go e))
