-- ===== src/Rpc/Socket.antt =====
-- What esphome_rpc.c uses of Zephyr: the sockets, once the server listens, and the heap. Neither is
-- part of the repository, so both are a parameter, over a state `World` that only they read.
use zephyr_esphome.Prelude.{ℕ, ◌≡◌, List, [], ◌∷◌, Bool}

-- The result of zsock_recv. `lost n` is -(n + 1); `got bs` has written `bs` to the buffer, and the
-- number returned is the length of `bs`: 0 when the peer has closed the connection.
pub data Recv : Type 0 where
  lost : ℕ → Recv
  got : List ℕ → Recv

pub record Socket : Type 1 where
  pub World : Type 0
  -- zsock_recv(fd, buf, n, ZSOCK_MSG_WAITALL)
  pub recv : ℕ → World → Recv × World
  -- zsock_send(fd, bytes, n, 0); its result is never read by esphome_rpc.c
  pub send : List ℕ → World → World
  -- zsock_accept: `false` is -1
  pub accept : World → Bool × World
  -- zsock_close
  pub close : World → World
  -- k_malloc(n): `false` is NULL
  pub alloc : ℕ → World → Bool × World
  -- k_free
  pub release : World → World

module _ (s : Socket) where
  open s use {World, recv}

  -- From `w`, asking for one byte at a time yields `bs` and leads to `w'`.
  abbrev pub Delivers : List ℕ → World → World → Type 0
  Delivers [] w w' = w ≡ w'
  Delivers (b ∷ bs) w w' = (v : World) × (recv 1 w ≡ (got (b ∷ []), v)) × Delivers bs v w'

  -- The peer has closed the connection: every further read of a byte says so.
  abbrev pub IsClosed : World → Type 0
  IsClosed w = recv 1 w ≡ (got [], w)

  -- A number that only zsock_accept and zsock_close change.
  pub record Keeps (count : World → ℕ) : Type 0 where
    pub received : (n : ℕ) (w : World) → count (recv n w).1 ≡ count w
    pub sent : (bs : List ℕ) (w : World) → count (s.send bs w) ≡ count w
    pub allocated : (n : ℕ) (w : World) → count (s.alloc n w).1 ≡ count w
    pub released : (w : World) → count (s.release w) ≡ count w
