-- ===== src/Tests/Wire.antt =====
-- A socket that hands out a list of bytes and keeps what is sent, a heap that always has memory, and
-- a codec whose payloads are their own encoding.
use zephyr_esphome.Prelude.{
  ℕ, ◌≡◌, refl, ap, List, [], ◌∷◌, ◌++◌, true, Option, some, take, drop, length, Code, success,
}
use zephyr_esphome.Rpc.Socket.{Socket, got}
use zephyr_esphome.Rpc.Service.{Codec, State}
use zephyr_esphome.Rpc.Messages.{Message}

pub record Wire : Type 0 where
  pub incoming : List ℕ
  pub sent : List ℕ

abbrev pub wire : Socket
wire = record {
  World = Wire;
  recv = λ n w. (got (take n w.incoming), record w { incoming = drop n w.incoming });
  send = λ bs w. record w { sent = w.sent ++ bs };
  accept = λ w. (true, w);
  close = λ w. w;
  alloc = λ n w. (true, w);
  release = λ w. w;
}

abbrev pub plain : Codec
plain = record {
  Payload = List ℕ;
  unpack = λ m bs. some bs;
  packed_size = λ m p. length p;
  pack = λ m p. p;
}

-- A callback that accepts every message.
abbrev pub accepting : Message → Option (List ℕ) → State wire plain → Code × State wire plain
accepting m o st = (success, st)

abbrev pub on_wire : List ℕ → Wire
on_wire bs = record { incoming = bs; sent = [] }

abbrev pub state : List ℕ → State wire plain
state bs = record { world = on_wire bs; blocks = 0 }

pub take-append : {A : Type 0} (xs ys : List A) → take (length xs) (xs ++ ys) ≡ xs
take-append [] ys = refl
take-append (x ∷ xs) ys = ap (λ t. x ∷ t) (take-append xs ys)

pub drop-append : {A : Type 0} (xs ys : List A) → drop (length xs) (xs ++ ys) ≡ ys
drop-append [] ys = refl
drop-append (x ∷ xs) ys = drop-append xs ys
