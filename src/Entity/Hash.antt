-- ===== src/Entity/Hash.antt =====
-- fnv1_hash of entity.c: the width of a key, and names that differ in one byte.
use zephyr_esphome.Prelude.{
  ℕ, ◌*◌, ◌%◌, ◌^◌, ◌<◌, ◌≡◌, ◌≢◌, sym, ap, ◌∙◌, List, [], ◌∷◌, ◌++◌, Bool, bit_xor, foldl, arith,
  All, xor-undo, xor_comm, xor-lt,
}
use mathlib.Core.List.{append_assoc}
use zephyr_esphome.Entity.{promoted, hash_round, fnv1_hash}

abbrev pub IsByte : ℕ → Type 0
IsByte b = b < 256

promoted-lt : (s : Bool) (b : ℕ) → b < 256 → promoted s b < 2 ^ 32
unfolding promoted
promoted-lt s b h = ground arith

promoted-injective : (s : Bool) (b c : ℕ) → b < 256 → c < 256 → promoted s b ≡ promoted s c → b ≡ c
unfolding promoted
promoted-injective s b c h k e = ground arith

-- The prime is odd, so the multiplication loses nothing: 899433627 undoes it.
prime_undo : (h : ℕ) → h < 2 ^ 32 → h * 16777619 % 2 ^ 32 * 899433627 % 2 ^ 32 ≡ h
prime_undo h l = omega arith

hash_round-lt : (s : Bool) (h b : ℕ) → b < 256 → hash_round s h b < 2 ^ 32
unfolding hash_round
hash_round-lt s h b k = xor-lt 32 _ _ (omega arith) (promoted-lt s b k)

hash_round-injective :
    (s : Bool) (h h' b : ℕ)
    → h < 2 ^ 32
    → h' < 2 ^ 32
    → hash_round s h b ≡ hash_round s h' b
    → h ≡ h'
unfolding hash_round
hash_round-injective s h h' b l l' e =
    let p = promoted s b in
    let products : h * 16777619 % 2 ^ 32 ≡ h' * 16777619 % 2 ^ 32 =
      sym (xor-undo _ p) ∙ ap (λ t. bit_xor t p) e ∙ xor-undo _ p in
    sym (prime_undo h l) ∙ ap (λ (t : ℕ). t * 899433627 % 2 ^ 32) products ∙ prime_undo h' l'

hash_round-injective_byte :
    (s : Bool) (h b c : ℕ) → b < 256 → c < 256 → hash_round s h b ≡ hash_round s h c → b ≡ c
unfolding hash_round
hash_round-injective_byte s h b c k l e =
    let x = h * 16777619 % 2 ^ 32 in
    promoted-injective s b c k l (
      sym (xor-undo (promoted s b) x)
      ∙ ap (λ t. bit_xor t x) (xor_comm (promoted s b) x ∙ e ∙ xor_comm x (promoted s c))
      ∙ xor-undo (promoted s c) x)

rounds-lt :
    (s : Bool) (h : ℕ) (str : List ℕ)
    → All IsByte str
    → h < 2 ^ 32
    → foldl (hash_round s) h str < 2 ^ 32
rounds-lt s h [] a l = l
rounds-lt s h (b ∷ str) a l = rounds-lt s (hash_round s h b) str a.1 (hash_round-lt s h b a.0)

rounds-injective :
    (s : Bool) (h h' : ℕ) (str : List ℕ)
    → All IsByte str
    → h < 2 ^ 32
    → h' < 2 ^ 32
    → foldl (hash_round s) h str ≡ foldl (hash_round s) h' str
    → h ≡ h'
rounds-injective s h h' [] a l l' e = e
rounds-injective s h h' (b ∷ str) a l l' e = hash_round-injective s h h' b l l' (
    rounds-injective s (hash_round s h b) (hash_round s h' b) str a.1 (hash_round-lt s h b a.0)
      (hash_round-lt s h' b a.0) e)

one_byte :
    (s : Bool) (h b c : ℕ) (front back : List ℕ)
    → All IsByte back
    → b < 256
    → c < 256
    → foldl (hash_round s) h (front ++ (b ∷ back)) ≡ foldl (hash_round s) h (front ++ (c ∷ back))
    → b ≡ c
one_byte s h b c [] back a k l e = hash_round-injective_byte s h b c k l (
    rounds-injective s (hash_round s h b) (hash_round s h c) back a (hash_round-lt s h b k)
      (hash_round-lt s h c l) e)
one_byte s h b c (x ∷ front) back a k l e = one_byte s (hash_round s h x) b c front back a k l e

All-snoc : (str : List ℕ) (b : ℕ) → All IsByte str → b < 256 → All IsByte (str ++ (b ∷ []))
All-snoc [] b a h = (h, tt)
All-snoc (x ∷ str) b a h = (a.0, All-snoc str b a.1 h)

-- The key of a string of bytes is a uint32_t.
pub fnv1_hash-lt : (s : Bool) (str : List ℕ) → All IsByte str → fnv1_hash s str < 2 ^ 32
unfolding fnv1_hash
fnv1_hash-lt s str a =
    rounds-lt s 2166136261 (str ++ (0 ∷ [])) (All-snoc str 0 a (omega arith)) (omega arith)

-- Two names that differ in one byte, and only there, have different keys, whether `char` is signed
-- or not.
pub fnv1_hash_one_byte :
    (s : Bool) (b c : ℕ) (front back : List ℕ)
    → All IsByte back
    → b < 256
    → c < 256
    → b ≢ c
    → fnv1_hash s (front ++ (b ∷ back)) ≢ fnv1_hash s (front ++ (c ∷ back))
unfolding fnv1_hash
fnv1_hash_one_byte s b c front back a k l differ e = differ (
    one_byte s 2166136261 b c front (back ++ (0 ∷ [])) (All-snoc back 0 a (omega arith)) k l
      (rw (append_assoc, append_assoc) at e))
