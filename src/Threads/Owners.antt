-- ===== src/Threads/Owners.antt =====
-- Whose connection gets the frames of the sensors.
use zephyr_esphome.Prelude.{
  ℕ, ◌≡◌, ◌≢◌, refl, ap, ◌∙◌, true, Option, none, some, ◌==◌, ==_iff, Bool-cases, inl, inr, pos,
}
use zephyr_esphome.Threads.{
  Owner, rpc_client, ota_client, Descriptors, set_owner, Step, rpc_accepts, rpc_accept_fails,
  rpc_closes, ota_accepts, ota_closes, Reach, start, later, sensor_target,
}

-- A thread that is in a connection owns its descriptor.
pub record IsOwned (d : Descriptors) : Type 0 where
  pub served : d.serving ≡ true → (fd : ℕ) × (d.socket ≡ pos fd) × (d.owner fd ≡ some rpc_client)
  pub updated : (fd : ℕ) → d.updating ≡ some fd → d.owner fd ≡ some ota_client

set_other :
    (fd i : ℕ) (o : Option Owner) (owner : ℕ → Option Owner)
    → i ≢ fd
    → set_owner fd o owner i ≡ owner i
set_other fd i o owner n = elim (Bool-cases (i == fd)) [
  | inl same ↦ absurd (n ((==_iff i fd).0 same))
  | inr differ ↦ rw differ refl
]

set_same : (fd : ℕ) (o : Option Owner) (owner : ℕ → Option Owner) → set_owner fd o owner fd ≡ o
set_same fd o owner = rw ((==_iff fd fd).1 refl) refl

-- Descriptors with different owners differ.
apart : (owner : ℕ → Option Owner) (i j : ℕ) → owner i ≢ owner j → i ≢ j
apart owner i j n e = n (ap owner e)

Step-IsOwned : {d d' : Descriptors} → Step d d' → IsOwned d → IsOwned d'
Step-IsOwned {d} (rpc_accepts fd idle free) o = record {
  served = λ e. (fd, refl, set_same fd (some rpc_client) d.owner);
  updated = λ i e.
      set_other fd i (some rpc_client) d.owner
        (apart d.owner i fd (λ q. cc (q, free, o.updated i e)))
      ∙ o.updated i e;
}
Step-IsOwned {d} (rpc_accept_fails idle) o = record {
  served = λ e. cc (e, idle);
  updated = o.updated;
}
Step-IsOwned {d} (rpc_closes fd busy at_fd) o =
    let (fd', at_fd', mine) = o.served busy in
    let same : fd ≡ fd' = cc (at_fd', at_fd) in
    record {
      served = λ e. cc e;
      updated = λ i e.
          set_other fd i none d.owner (apart d.owner i fd (λ q. cc (q, same, mine, o.updated i e)))
          ∙ o.updated i e;
    }
Step-IsOwned {d} (ota_accepts fd idle free) o = record {
  served = λ e.
      let (fd', at_fd', mine) = o.served e in
      (
        fd',
        at_fd',
        set_other fd fd' (some ota_client) d.owner (apart d.owner fd' fd (λ q. cc (q, free, mine)))
            ∙ mine,
      );
  updated = λ i e. let same : fd ≡ i = cc e in rw (← same) (set_same fd (some ota_client) d.owner);
}
Step-IsOwned {d} (ota_closes fd at_fd) o = record {
  served = λ e.
      let (fd', at_fd', mine) = o.served e in
      (
        fd',
        at_fd',
        set_other fd fd' none d.owner (apart d.owner fd' fd (λ q. cc (q, mine, o.updated fd at_fd)))
            ∙ mine,
      );
  updated = λ i e. cc e;
}

Reach-IsOwned : {d : Descriptors} → Reach d → IsOwned d
Reach-IsOwned start = record { served = λ e. cc e; updated = λ i e. cc e }
Reach-IsOwned (later r s) = Step-IsOwned s (Reach-IsOwned r)

-- While the API serves a connection, the frames of the sensors go to this connection, in every order
-- of the calls of zsock_accept and zsock_close of the two services.
pub Reach-sensor_target :
    {d : Descriptors} → Reach d → d.serving ≡ true → sensor_target d ≡ some rpc_client
unfolding sensor_target
Reach-sensor_target r e = let (fd, at_fd, mine) = (Reach-IsOwned r).served e in rw at_fd mine

-- The calls that lead from one state to another.
pub data Leads (d : Descriptors) : Descriptors → Type 0 where
  here : Leads d d
  next : {d' d'' : Descriptors} → Leads d d' → Step d' d'' → Leads d d''

-- From every state in which the API serves a connection and no update runs, the calls can go on so
-- that the frames of the sensors go to the client of an update: a closed connection leaves its
-- descriptor in `rpc_data->socket`, and the connection of an update gets the same one.
pub sensor_target_lost :
    {d : Descriptors}
    → Reach d
    → d.serving ≡ true
    → d.updating ≡ none
    → (d' : Descriptors) × Leads d d' × (sensor_target d' ≡ some ota_client)
unfolding sensor_target
sensor_target_lost {d} r busy idle =
    let (fd, at_fd, mine) = (Reach-IsOwned r).served busy in
    (
      _,
      next (next here (rpc_closes fd busy at_fd)) (ota_accepts fd idle (set_same fd none d.owner)),
      rw at_fd (set_same fd (some ota_client) (set_owner fd none d.owner)),
    )
