-- ===== src/Api/Contract.antt =====
-- A connection to the device, from the bytes that a client sends to the frames that it gets, against the
-- contract of the device.
use zephyr_esphome.Prelude.{ℕ, suc, ◌+◌, ◌≡◌, ap, ◌∙◌, List, ◌++◌, map, Option, length, All, Code}
use zephyr_esphome.Entity.{Entity}
use zephyr_esphome.Rpc.Socket.{Socket, got}
use zephyr_esphome.Rpc.Messages.{Message}
use zephyr_esphome.Rpc.Service.{Codec, State, serve}
use zephyr_esphome.Rpc.Service.Contract.{
  Request, IsRequest, stream_of, session, Serves, Follows, serve-session,
}
use zephyr_esphome.Api.Base.{Config, Floats, Structs, Devices}
use zephyr_esphome.Api.{api_callback}
use zephyr_esphome.Api.Listing.{Records, frame}
use zephyr_esphome.Api.Device.{Desk, respond}
use zephyr_esphome.Api.Shows.{Shows}
use zephyr_esphome.Api.Answers.{Did, api_callback-Did}

-- A read of no more than the client has sent yields just the bytes asked for, and nothing else happens.
pub record Reads (s : Socket) (D : Type 0) (state : s.World → D) (sent : s.World → List (List ℕ))
    (stream : s.World → List ℕ) : Type 0 where
  pub received :
      (bs rest : List ℕ) (w : s.World)
      → stream w ≡ bs ++ rest
      → let r = s.recv (length bs) w in
        (r ≡ (got bs, r.1)) × (stream r.1 ≡ rest) × (sent r.1 ≡ sent w) × (state r.1 ≡ state w)

module _ (s : Socket) (c : Codec) (f : Floats) (structs : Structs f c)
    (devices : Devices f (s.World)) (sent : s.World → List (List ℕ))
    (records : Records s c f structs sent) (D : Type 0) (desk : Desk (devices.Dev) D)
    (state : s.World → D) (stream : s.World → List ℕ)
    (shows : Shows s c f devices D desk state sent stream) (reads : Reads s D state sent stream)
    (config : Config) (es : List (Entity (devices.Dev))) where
  -- What a client sees of the device: the frames sent, and the state of the switches and buttons.
  abbrev pub Seen : Type 0
  Seen = List (List ℕ) × D

  abbrev pub seen : s.World → Seen
  seen w = (sent w, state w)

  -- The contract of the device, as a handler of requests.
  abbrev pub answer : Message → Option (c.Payload) → Seen → Code × Seen
  answer m o (frames, d) =
      let (ret, rs, d') = respond c f structs desk config es m o d in
      (ret, (frames ++ map (frame s c f structs) rs, d'))

  abbrev frames_after : State s c → Message → Option (c.Payload) → List (List ℕ)
  frames_after st m o =
      sent st.world
      ++ map (frame s c f structs) (respond c f structs desk config es m o (state st.world)).1

  api_callback-Serves :
      Serves s c (api_callback s c f structs devices config es) Seen seen stream answer
  unfolding Did
  api_callback-Serves = record {
    received = λ bs rest w e.
        let (all, left, frames, same) = reads.received bs rest w e in
        (
          all,
          left,
          ap (λ x. (x, state (s.recv (length bs) w).1)) frames ∙ ap (λ x. (sent w, x)) same,
        );
    allocated = λ n w.
        let (same, left) = shows.allocs n w in
        (
          ap (λ b. (b, (s.alloc n w).1)) (records.has_block n w),
          left,
          ap (λ x. (x, state (s.alloc n w).1)) (records.alloc_sent n w)
              ∙ ap (λ x. (sent w, x)) same,
        );
    handled = λ m o st.
        let (code, frames, at_d, left) =
          api_callback-Did s c f structs devices sent records D desk state stream shows config es m
            o st in
        let after = (api_callback s c f structs devices config es m o st).1.world in
        (code, ap (λ x. (x, state after)) frames ∙ ap (λ x. (frames_after st m o, x)) at_d, left);
  }

  -- Over a whole connection the device does what its contract (respond) says. Of the requests that a client has
  -- sent back to back, each as its Write function puts it on the wire, those up to the first whose answer
  -- has a result other than 0 change the switches and buttons as the contract says, one after another,
  -- and what is sent are just the frames of the responses of the contract, in order; that result ends the
  -- loop, the connection is closed, and what follows is not read. With no such result the loop
  -- goes on after the last request. It is supposed that every read yields the bytes asked for, that the
  -- heap always has a block, that protobuf-c's sizes are exact and it decodes what it encodes, and that
  -- the devices act on the state as `desk` says. A payload may be empty, and has less than 2 ^ 32 bytes.
  pub serve-respond :
      (rs : List (Request c)) (requests rounds val : ℕ) (rest : List ℕ) (st : State s c)
      → All (IsRequest c) rs
      → stream st.world ≡ stream_of c rs ++ rest
      → Follows s c
          (api_callback s c f structs devices config es)
          Seen
          seen
          stream
          requests
          (suc rounds)
          val
          rest
          (serve s c
            (api_callback s c f structs devices config es)
            (length rs + requests)
            (suc rounds)
            val
            st)
          (session c answer rs (seen st.world))
  serve-respond =
      serve-session s c (api_callback s c f structs devices config es) Seen seen stream answer
        api_callback-Serves
