-- ===== src/Rpc/Listen/Connections.antt =====
-- The sockets that esphome_rpc_service holds open: the one that listens, and the connections.
use zephyr_esphome.Prelude.{
  ℕ, zero, suc, ◌+◌, ◌-◌, ◌≤◌, ◌≡◌, refl, ap, ◌∙◌, inl, inr, true, false, Bool-cases, Option, none,
  some, Option-cases, if◌then◌else◌, is_nonzero, arith,
}
use zephyr_esphome.Rpc.Socket.{Socket, Keeps}
use zephyr_esphome.Rpc.Messages.{Message}
use zephyr_esphome.Rpc.Service.Count.{read_request-count}
use zephyr_esphome.Rpc.Service.{
  Codec, State, Callback, Outcome, returned, blocked, read_request, serve,
}
use zephyr_esphome.Rpc.Service.Arrival.{serve_ends, serve_goes_on}
use zephyr_esphome.Rpc.Listen.{Net, share_v4, start_listening, accept_loop}

-- How many sockets that listen are open.
pub record Counts {World : Type 0} (net : Net World) (servers : World → ℕ) : Type 0 where
  pub opened :
      (w : World)
      → servers (net.open_server w).1 ≡ (if (net.open_server w).0 then servers w + 1 else servers w)
  pub asked : (w : World) → servers (net.v6only w).1 ≡ servers w
  pub cleared : (w : World) → servers (net.clear_v6only w) ≡ servers w
  pub bound : (w : World) → servers (net.bind w).1 ≡ servers w
  pub listened : (w : World) → servers (net.listen w).1 ≡ servers w
  pub closed : (w : World) → servers (net.close_server w) ≡ servers w - 1

module _ {World : Type 0} (net : Net World) (servers : World → ℕ)
    (counts : Counts net servers) where
  share_v4-servers : (w : World) → servers (share_v4 net w) ≡ servers w
  unfolding share_v4
  share_v4-servers w = elim (Option-cases (net.v6only w).0) [
    | inl failed ↦ rw (share_v4, failed) (counts.asked w)
    | inr (true, on) ↦ rw (share_v4, on) (counts.cleared _ ∙ counts.asked w)
    | inr (false, off) ↦ rw (share_v4, off) (counts.asked w)
  ]

  -- A service that cannot listen leaves no socket behind, and one that listens has one more open. It is
  -- supposed that only zsock_socket opens a socket, and that zsock_close closes one.
  pub start_listening-servers :
      (w : World)
      → servers (start_listening net w).1
        ≡ elim (start_listening net w).0 [ none ↦ servers w + 1 | some error ↦ servers w ]
  unfolding start_listening
  start_listening-servers w =
      let w₁ = (net.open_server w).1 in
      let w₂ = (net.bind (share_v4 net w₁)).1 in
      let w₃ = (net.listen w₂).1 in
      ground (
        arith,
        counts.opened w,
        share_v4-servers w₁,
        counts.bound (share_v4 net w₁),
        counts.listened w₂,
        counts.closed w₂,
        counts.closed w₃,
      )

-- How many connections are open: zsock_accept opens one where it does not fail, and zsock_close closes
-- one; the calls between them open and close none.
pub record Opens (s : Socket) (open_connections : s.World → ℕ) : Type 0 where
  pub accepted :
      (w : s.World)
      → open_connections (s.accept w).1
        ≡ (if (s.accept w).0 then open_connections w + 1 else open_connections w)
  pub closed : (w : s.World) → open_connections (s.close w) ≡ open_connections w - 1
  pub keeps : Keeps s open_connections

module _ (s : Socket) (c : Codec) (callback : Callback s c) (count : s.World → ℕ)
    (opens : Opens s count)
    (handled : (m : Message) (o : Option (c.Payload)) (st : State s c)
      → count (callback m o st).1.world ≡ count st.world) where
  -- What serving a connection has done to the open ones when it returned, or as far as it came.
  abbrev pub after_serving : Outcome → ℕ → ℕ
  after_serving (returned ret) n = n - 1
  after_serving blocked n = n

  serve-count :
      (requests rounds val : ℕ) (st : State s c)
      → let r = serve s c callback requests rounds val st in
        count r.1.world ≡ after_serving r.0 (count st.world)
  unfolding serve
  serve-count zero rounds val st = refl
  serve-count (suc requests) rounds val st =
      by_outcome (serve-count requests rounds val) (read_request s c callback rounds val st).0
        (read_request s c callback rounds val st).1 refl
        (read_request-count s count opens.keeps c callback handled rounds val st)
    where
      by_outcome :
          ((t : State s c)
            → let r = serve s c callback requests rounds val t in
              count r.1.world ≡ after_serving r.0 (count t.world))
          → (out : Outcome) (t : State s c) → read_request s c callback rounds val st ≡ (out, t)
          → count t.world ≡ count st.world
          → let r = serve s c callback (suc requests) rounds val st in
            count r.1.world ≡ after_serving r.0 (count st.world)
      by_outcome rest blocked t e same = ground (arith, e, same)
      by_outcome rest (returned ret) t e same = elim (Bool-cases (is_nonzero ret)) [
        | inl ends ↦
            rw (serve_ends s c callback requests rounds val st t ret e ends)
              (opens.closed t.world ∙ ap (λ n. n - 1) same)
        | inr goes_on ↦
            rw (serve_goes_on s c callback requests rounds val st t ret e goes_on)
              (rest t ∙ ap (after_serving _) same)
      ]

  -- However far the loop over the connections comes, at most one more is open than before it.
  pub accept_loop-count :
      (connections requests rounds val : ℕ) (st : State s c)
      → count (accept_loop s c callback connections requests rounds val st).1.world
        ≤ count st.world + 1
  unfolding accept_loop
  accept_loop-count zero requests rounds val st = omega arith
  accept_loop-count (suc connections) requests rounds val st =
      let w = (s.accept st.world).1 in
      let (out, st') = serve s c callback requests rounds val (record st { world = w }) in
      ground (
        arith,
        opens.accepted st.world,
        serve-count requests rounds val (record st { world = w }),
        accept_loop-count connections requests rounds val st',
        accept_loop-count connections requests rounds val (record st { world = w }),
      )
