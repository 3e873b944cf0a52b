-- ===== src/Tests/Frames.antt =====
-- Two threads that write messages at the same time, at concrete inputs.
use zephyr_esphome.Prelude.{ℕ, arith, ◌≡◌, List, [], ◌∷◌, Bool, true, false}
use zephyr_esphome.Rpc.Messages.{write_form}
use zephyr_esphome.Api.Base.{Response, connect_response, sensor_state_response, ping_response}
use zephyr_esphome.Api.Listing.{frame}
use zephyr_esphome.Threads.Frames.{begin, advance, Merge, System, run, entering, entered}
use zephyr_esphome.Threads.Turns.{turns_of}
use zephyr_esphome.Threads.Merged.{run-Merge}
use zephyr_esphome.Tests.Wire.{plain}
use zephyr_esphome.Tests.Board.{board, floats, structs, state, board-Records}

-- The API answers twice while the sensors send a frame.
abbrev answers : List (Response floats)
answers = connect_response false ∷ ping_response ∷ []

abbrev reports : List (Response floats)
reports = sensor_state_response 3 21 ∷ []

abbrev turns : List Bool
turns = true ∷ false ∷ true ∷ false ∷ true ∷ true ∷ false ∷ true ∷ true ∷ []

abbrev after : System board plain floats structs
after =
    run board plain floats structs turns
      (entered board plain floats structs answers reports (state []))

run-Merge_example :
    (frames : List (List ℕ)) × Merge
      (frame board plain floats structs (connect_response false)
        ∷ frame board plain floats structs ping_response
        ∷ [])
      (frame board plain floats structs (sensor_state_response 3 21) ∷ [])
      frames
    × (after.state.world.frames ≡ frames)
    × (after.state.blocks ≡ 0)
    × (after.first ≡ entering board plain floats structs [])
    × (after.second ≡ entering board plain floats structs [])
unfolding run advance begin write_form turns_of
run-Merge_example =
    run-Merge board plain floats structs (λ w. w.frames) board-Records answers reports (state [])
      turns (omega arith) (omega arith)
