-- ===== src/Wifi/Turns.antt =====
-- The networks that call after call of wifi_credentials_get_next yields.
use native.Mathlib.Nat.{suc-mod, zero-mod, mod-lt, mod-eq_of_lt, mod_self}
use zephyr_esphome.Prelude.{
  ℕ, zero, suc, ◌+◌, ◌%◌, ◌^◌, ◌<◌, ◌≡◌, refl, sym, ◌∙◌, inl, inr, List, [], ◌∷◌, some, leb,
  if◌then◌else◌, length, get_elem?, arith, Bool-cases,
}
use zephyr_esphome.Wifi.{Credentials, initial, get_current, get_next}

-- One turn further, on a list of `len` networks.
turn_lem :
    (r len : ℕ)
    → r < len
    → len < 256
    → (if leb len ((r + 1) % 2 ^ 8) then 0 else (r + 1) % 2 ^ 8) ≡ suc r % len
turn_lem r len h l = elim (Bool-cases (leb len ((r + 1) % 2 ^ 8))) [
  | inl wraps ↦ let last : suc r ≡ len = ground arith in rw (wraps, last) (sym (mod_self len))
  | inr goes_on ↦
      let inside : suc r < len = ground arith in rw (goes_on, mod-eq_of_lt inside) (omega arith)
]

module _ {ℓ} {A : Type ℓ} where
  get_elem?-some : (xs : List A) (i : ℕ) → i < length xs → (a : A) × (get_elem? xs i ≡ some a)
  get_elem?-some [] i h = absurd (omega arith)
  get_elem?-some (x ∷ xs) zero h = (x, refl)
  get_elem?-some (x ∷ xs) (suc i) h = get_elem?-some xs i (omega arith)

  -- The state after `n` calls.
  unfoldable pub after : ℕ → Credentials A → Credentials A
  after zero c = c
  after (suc n) c = (get_next (after n c)).1

  -- What holds after `n` calls.
  record IsAt (nets : List A) (n : ℕ) (c : Credentials A) : Type ℓ where
    pub networks : c.credentials ≡ nets
    pub counted : c.count ≡ length nets
    pub turn : c.selected ≡ n % length nets

  after-IsAt :
      (nets : List A) (n : ℕ)
      → 0 < length nets
      → length nets < 256
      → IsAt nets n (after n (initial nets))
  unfolding after initial get_next
  after-IsAt nets zero h l = record {
    networks = refl;
    counted = omega arith;
    turn = sym (zero-mod (length nets));
  }
  after-IsAt nets (suc n) h l =
      let c = after-IsAt nets n h l in
      record {
        networks = c.networks;
        counted = c.counted;
        turn =
            rw (c.counted, c.turn)
              (turn_lem (n % length nets) (length nets) (mod-lt n h) l
                ∙ sym (suc-mod n (length nets)));
      }

  -- With 1 to 255 networks, the call number `n` of wifi_credentials_get_next, counted from 0, yields the
  -- network number `n` modulo their number, always inside the array, and just before it
  -- wifi_credentials_get_current yields the same one.
  pub get_next-after :
      (nets : List A) (n : ℕ)
      → 0 < length nets
      → length nets < 256
      → (a : A) × (get_elem? nets (n % length nets) ≡ some a)
        × ((get_next (after n (initial nets))).0 ≡ some a)
        × (get_current (after n (initial nets)) ≡ some a)
  unfolding get_next get_current
  get_next-after nets n h l =
      let c = after-IsAt nets n h l in
      let (a, e) = get_elem?-some nets (n % length nets) (mod-lt n h) in
      (a, e, rw (c.networks, c.turn) e, rw (c.networks, c.turn) e)
