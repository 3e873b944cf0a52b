-- ===== src/Ota/Base.antt =====
-- What esphome_ota.c is written with: the answers of esphome_ota.h, the platform, and a part of a run
-- that can fail.
use zephyr_esphome.Prelude.{
  ℕ, ◌+◌, ◌*◌, ◌%◌, ◌^◌, List, [], ◌∷◌, Bool, false, Option, none, some, ◌&&◌, ◌||◌, ltb, leb, ◌==◌,
  if◌then◌else◌, bit_and, bit_or, length, Code, ◌≡◌, ap, pos, negsuc, ℤ,
}
use zephyr_esphome.Rpc.Socket.{Recv, lost, got}

-- enum OTAResponseTypes, as far as the code uses it.
abbrev pub response_ok : ℕ
response_ok = 0x00

abbrev pub header_ok : ℕ
header_ok = 0x40

abbrev pub auth_ok : ℕ
auth_ok = 0x41

abbrev pub update_prepare_ok : ℕ
update_prepare_ok = 0x42

abbrev pub bin_md5_ok : ℕ
bin_md5_ok = 0x43

abbrev pub receive_ok : ℕ
receive_ok = 0x44

abbrev pub update_end_ok : ℕ
update_end_ok = 0x45

abbrev pub chunk_ok : ℕ
chunk_ok = 0x47

abbrev pub error_magic : ℕ
error_magic = 0x80

-- MAGIC_BYTES
abbrev pub magic_bytes : List ℕ
magic_bytes = 0x6c ∷ 0x26 ∷ 0xf7 ∷ 0x5c ∷ 0x45 ∷ []

-- OTA_BLOCK_SIZE
abbrev pub block_size : ℕ
block_size = 8192

-- The size of `buf` in esphome_ota_run.
abbrev pub chunk_size : ℕ
chunk_size = 1024

-- `ret == n`
abbrev pub is_count : ℤ → ℕ → Bool
is_count (pos k) n = k == n
is_count (negsuc k) n = false

-- The bytes of a read of `n`, if just as many came.
abbrev pub all_of : ℕ → Recv → Option (List ℕ)
all_of n (lost k) = none
all_of n (got bs) = if length bs == n then some bs else none

-- `*ota_size <<= 8; *ota_size |= buf[i] & 0xff;`
unfoldable pub size_round : ℕ → ℕ → ℕ
size_round size b = bit_or (size * 2 ^ 8 % 2 ^ 32) (bit_and b 0xff)

-- The condition of the loop of the acknowledgements, over a 32-bit size_t.
unfoldable pub is_due : (ota_size total acknowledged : ℕ) → Bool
is_due ota_size total acknowledged =
    leb ((acknowledged + block_size) % 2 ^ 32) total
    || (total == ota_size && ltb acknowledged ota_size)

-- What the code uses of Zephyr: the socket and the writer of the flash image, over a state `Peer`
-- that only they read.
pub record Platform : Type 1 where
  pub Peer : Type 0
  -- zsock_recv(socket, buf, n, ZSOCK_MSG_WAITALL)
  pub recv : ℕ → Peer → Recv × Peer
  -- zsock_send(socket, bytes, n, 0): the number returned
  pub send : List ℕ → Peer → ℤ × Peer
  -- flash_img_buffered_write(ctx, bytes, n, last): whether it returned 0
  pub flash_write : List ℕ → Bool → Peer → Bool × Peer

-- How a part of esphome_ota_run ends. `stuck` is no result of the code: a loop ran out of rounds.
pub data Result (A : Type 0) : Type 0 where
  ok : A → Result A
  err : Code → Result A
  stuck : Result A

-- A part of esphome_ota_run; the state comes back after an error too.
abbrev pub Step : Type 0 → Type 0 → Type 0
Step S A = S → Result A × S

abbrev pub pure : {S A : Type 0} → A → Step S A
pure a r = (ok a, r)

abbrev pub fail : {S A : Type 0} → Code → Step S A
fail c r = (err c, r)

infixl 5 ◌>>=◌ ◌>>◌
abbrev pub ◌>>=◌ : {S A B : Type 0} → Step S A → (A → Step S B) → Step S B
◌>>=◌ m f r =
    let (x, r') = m r in elim x [ ok a ↦ f a r' | err c ↦ (err c, r') | stuck ↦ (stuck, r') ]

abbrev pub ◌>>◌ : {S B : Type 0} → Step S (Unit {0}) → Step S B → Step S B
m >> k = m >>= λ _. k

pub bind-ok :
    {S A B : Type 0} (m : Step S A) (f : A → Step S B) {r r' : S} {a : A}
    → m r ≡ (ok a, r')
    → (m >>= f) r ≡ f a r'
bind-ok {S} {A} m f e =
    ap
      (λ (t : Result A × S). elim t.0 [
        | ok a ↦ f a t.1
        | err c ↦ (err c, t.1)
        | stuck ↦ (stuck, t.1)
      ])
      e

pub bind-err :
    {S A B : Type 0} (m : Step S A) (f : A → Step S B) {r r' : S} {c : Code}
    → m r ≡ (err c, r')
    → (m >>= f) r ≡ (err c, r')
bind-err {S} {A} m f e =
    ap
      (λ (t : Result A × S). elim t.0 [
        | ok a ↦ f a t.1
        | err c ↦ (err c, t.1)
        | stuck ↦ (stuck, t.1)
      ])
      e

pub bind-stuck :
    {S A B : Type 0} (m : Step S A) (f : A → Step S B) {r r' : S}
    → m r ≡ (stuck, r')
    → (m >>= f) r ≡ (stuck, r')
bind-stuck {S} {A} m f e =
    ap
      (λ (t : Result A × S). elim t.0 [
        | ok a ↦ f a t.1
        | err c ↦ (err c, t.1)
        | stuck ↦ (stuck, t.1)
      ])
      e

-- The two calls that start the new image, of MCUboot and of Zephyr.
pub data BootCall : Type 0 where
  boot_request_upgrade sys_reboot : BootCall

module _ (p : Platform) where
  open p use {Peer}

  -- What a run changes: the peer, and the record of its own calls. `sent` are the bytes whose sending
  -- succeeded, `written` those that the flash writer took, `closed` whether the last of them was marked
  -- as the last, `upgrade` whether boot_request_upgrade was called, `rebooted` whether sys_reboot was, and
  -- `boot_calls` these two in the order of their calls.
  pub record Run : Type 0 where
    pub peer : Peer
    pub sent : List ℕ
    pub written : List ℕ
    pub closed : Bool
    pub upgrade : Bool
    pub rebooted : Bool
    pub boot_calls : List BootCall
