-- ===== src/Threads/Merged.antt =====
-- Two threads that write messages at the same time: their frames stay whole and in order, and the heap
-- is balanced.
use zephyr_esphome.Prelude.{
  ℕ, ◌+◌, ◌*◌, ◌≤◌, ◌≡◌, refl, sym, ap, ◌∙◌, inl, inr, List, [], ◌∷◌, ◌++◌, map, length, Bool, true,
  false, arith,
}
use mathlib.Core.List.{append_assoc, append-nil}
use zephyr_esphome.Rpc.Socket.{Socket}
use zephyr_esphome.Rpc.Service.{Codec, State}
use zephyr_esphome.Api.Base.{Floats, Response, Structs}
use zephyr_esphome.Api.Listing.{Records, frame}
use zephyr_esphome.Threads.Frames.{
  Merge, neither, from_first, from_second, advance, System, run, entering, entered,
}
use zephyr_esphome.Threads.Turns.{turns_of, first_through, second_through}
use zephyr_esphome.Threads.Calls.{in_hand, owed, at_phase-Sends, at_phase-blocks}

module _ (s : Socket) (c : Codec) (f : Floats) (structs : Structs f c)
    (sent : s.World → List (List ℕ)) (records : Records s c f structs sent) where
  -- What a system has sent since `before`, when the threads had `first` and `second` to send: a merge of
  -- what each has sent, and what each still owes.
  record Sent (first second before : List (List ℕ)) (base : ℕ) (y : System s c f structs)
      : Type 0 where
    of_first : List (List ℕ)
    of_second : List (List ℕ)
    frames : List (List ℕ)
    merged : Merge of_first of_second frames
    on_wire : sent y.state.world ≡ before ++ frames
    first_in_order : first ≡ of_first ++ owed s c f structs y.first
    second_in_order : second ≡ of_second ++ owed s c f structs y.second
    blocks : y.state.blocks ≡ base + in_hand y.first.phase + in_hand y.second.phase

  first-Sent :
      (first second before : List (List ℕ)) (base : ℕ) (y : System s c f structs)
      → Sent first second before base y
      → let (t, st) = advance s c f structs y.first y.state in
        Sent first second before base (record y { first = t; state = st })
  first-Sent first second before base y h =
      let (t, st) = advance s c f structs y.first y.state in
      let balance : st.blocks ≡ base + in_hand t.phase + in_hand y.second.phase = omega (
        arith,
        at_phase-blocks s c f structs sent records y.first.left y.first.phase y.state
            (base + in_hand y.second.phase) (omega (arith, h.blocks)),
      ) in
      elim (at_phase-Sends s c f structs sent records y.first.left y.first.phase y.state) [
        | inl (same, owes) ↦ record {
          of_first = h.of_first;
          of_second = h.of_second;
          frames = h.frames;
          merged = h.merged;
          on_wire = same ∙ h.on_wire;
          first_in_order = h.first_in_order ∙ ap (λ t. h.of_first ++ t) owes;
          second_in_order = h.second_in_order;
          blocks = balance;
        }
        | inr (x, more, owes) ↦ record {
          of_first = h.of_first ++ (x ∷ []);
          of_second = h.of_second;
          frames = h.frames ++ (x ∷ []);
          merged = from_first x h.merged;
          on_wire = more ∙ ap (λ t. t ++ (x ∷ [])) h.on_wire ∙ rw append_assoc refl;
          first_in_order = h.first_in_order ∙ ap (λ t. h.of_first ++ t) owes ∙ rw append_assoc refl;
          second_in_order = h.second_in_order;
          blocks = balance;
        }
      ]

  second-Sent :
      (first second before : List (List ℕ)) (base : ℕ) (y : System s c f structs)
      → Sent first second before base y
      → let (t, st) = advance s c f structs y.second y.state in
        Sent first second before base (record y { second = t; state = st })
  second-Sent first second before base y h =
      let (t, st) = advance s c f structs y.second y.state in
      let balance : st.blocks ≡ base + in_hand y.first.phase + in_hand t.phase = omega (
        arith,
        at_phase-blocks s c f structs sent records y.second.left y.second.phase y.state
            (base + in_hand y.first.phase) (omega (arith, h.blocks)),
      ) in
      elim (at_phase-Sends s c f structs sent records y.second.left y.second.phase y.state) [
        | inl (same, owes) ↦ record {
          of_first = h.of_first;
          of_second = h.of_second;
          frames = h.frames;
          merged = h.merged;
          on_wire = same ∙ h.on_wire;
          first_in_order = h.first_in_order;
          second_in_order = h.second_in_order ∙ ap (λ t. h.of_second ++ t) owes;
          blocks = balance;
        }
        | inr (x, more, owes) ↦ record {
          of_first = h.of_first;
          of_second = h.of_second ++ (x ∷ []);
          frames = h.frames ++ (x ∷ []);
          merged = from_second x h.merged;
          on_wire = more ∙ ap (λ t. t ++ (x ∷ [])) h.on_wire ∙ rw append_assoc refl;
          first_in_order = h.first_in_order;
          second_in_order =
              h.second_in_order ∙ ap (λ t. h.of_second ++ t) owes ∙ rw append_assoc refl;
          blocks = balance;
        }
      ]

  run-Sent :
      (turns : List Bool) (first second before : List (List ℕ)) (base : ℕ)
      (y : System s c f structs)
      → Sent first second before base y
      → Sent first second before base (run s c f structs turns y)
  unfolding run
  run-Sent [] first second before base y h = h
  run-Sent (true ∷ turns) first second before base y h =
      run-Sent turns first second before base _ (first-Sent first second before base y h)
  run-Sent (false ∷ turns) first second before base y h =
      run-Sent turns first second before base _ (second-Sent first second before base y h)

  -- At the start nothing is sent and all is owed.
  entered-Sent :
      (rs₁ rs₂ : List (Response f)) (st : State s c)
      → Sent
          (map (frame s c f structs) rs₁)
          (map (frame s c f structs) rs₂)
          (sent st.world)
          st.blocks
          (entered s c f structs rs₁ rs₂ st)
  entered-Sent rs₁ rs₂ st = record {
    of_first = [];
    of_second = [];
    frames = [];
    merged = neither;
    on_wire = sym (append-nil (sent st.world));
    first_in_order = refl;
    second_in_order = refl;
    blocks = omega arith;
  }

  -- Two threads that write messages over one connection, in whatever order their calls of k_malloc,
  -- zsock_send and k_free come, once each has had three turns for each of its messages: both are through,
  -- the frames of the one and the frames of the other are on the wire, each whole and once, those of
  -- each thread in its order, and as many blocks of the heap are taken as before. It is supposed that the
  -- heap always has a block, that protobuf-c's sizes are exact and below 4 GiB, and that zsock_send takes
  -- a frame at once.
  pub run-Merge :
      (rs₁ rs₂ : List (Response f)) (st : State s c) (turns : List Bool)
      → length rs₁ * 3 ≤ turns_of true turns
      → length rs₂ * 3 ≤ turns_of false turns
      → let y = run s c f structs turns (entered s c f structs rs₁ rs₂ st) in
        (frames : List (List ℕ)) × Merge
          (map (frame s c f structs) rs₁)
          (map (frame s c f structs) rs₂)
          frames
        × (sent y.state.world ≡ sent st.world ++ frames)
        × (y.state.blocks ≡ st.blocks)
        × (y.first ≡ entering s c f structs [])
        × (y.second ≡ entering s c f structs [])
  run-Merge rs₁ rs₂ st turns enough₁ enough₂ =
      let y₀ = entered s c f structs rs₁ rs₂ st in
      let done₁ = first_through s c f structs turns y₀ refl enough₁ in
      let done₂ = second_through s c f structs turns y₀ refl enough₂ in
      let frames_of = map (frame s c f structs) in
      let h =
        run-Sent turns (frames_of rs₁) (frames_of rs₂) (sent st.world) st.blocks y₀
          (entered-Sent rs₁ rs₂ st) in
      let all₁ : frames_of rs₁ ≡ h.of_first =
        h.first_in_order
        ∙ ap (λ t. h.of_first ++ owed s c f structs t) done₁
        ∙ append-nil h.of_first in
      let all₂ : frames_of rs₂ ≡ h.of_second =
        h.second_in_order
        ∙ ap (λ t. h.of_second ++ owed s c f structs t) done₂
        ∙ append-nil h.of_second in
      (
        h.frames,
        rw (all₁, all₂) h.merged,
        h.on_wire,
        omega
            (arith, h.blocks, ap (λ t. in_hand (t.phase)) done₁, ap (λ t. in_hand (t.phase)) done₂),
        done₁,
        done₂,
      )
