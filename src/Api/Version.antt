-- ===== src/Api/Version.antt =====
-- _esphome_get_version of api.c: snprintf(version, len, "%d.%d", major, minor).
use native.Mathlib.Nat.{pow-suc}
use zephyr_esphome.Prelude.{
  ℕ, zero, suc, ◌+◌, ◌-◌, ◌*◌, ◌/◌, ◌%◌, ◌^◌, ◌≤◌, ◌<◌, ◌≡◌, refl, List, [], ◌∷◌, ◌++◌, ltb, lt→ltb,
  if◌then◌else◌, arith, ap, length, length-append, take,
}

-- The decimal digits, at most `n` of them.
unfoldable pub digits : (n : ℕ) → ℕ → List ℕ
digits zero v = []
digits (suc n) v =
    let front = digits n (v / 10) in
    if ltb v 10 then (48 + v) ∷ [] else front ++ ((48 + v % 10) ∷ [])

-- "%d" of a uint32_t: it is read as an int, so from 2^31 on the number is negative.
unfoldable pub decimal : ℕ → List ℕ
decimal v = if ltb v (2 ^ 31) then digits 10 v else 45 ∷ digits 10 (2 ^ 32 - v)

-- The text, before it is cut: the number that snprintf returns is its length.
unfoldable pub version : (major minor : ℕ) → List ℕ
version major minor = decimal major ++ (46 ∷ decimal minor)

-- The string in `version`, an array of `len` bytes: one of them is the NUL.
unfoldable pub get_version : (major minor len : ℕ) → List ℕ
get_version major minor len = take (len - 1) (version major minor)

length-digits : (n v : ℕ) → length (digits n v) ≤ n
unfolding digits
length-digits zero v = omega arith
length-digits (suc n) v =
    ground (arith, length-digits n (v / 10), length-append (digits n (v / 10)) ((48 + v % 10) ∷ []))

length-decimal : (v : ℕ) → length (decimal v) ≤ 11
unfolding decimal
length-decimal v = ground (arith, length-digits 10 v, length-digits 10 (2 ^ 32 - v))

take-all : (xs : List ℕ) (n : ℕ) → length xs ≤ n → take n xs ≡ xs
take-all [] zero h = refl
take-all [] (suc n) h = refl
take-all (x ∷ xs) zero h = absurd (omega arith)
take-all (x ∷ xs) (suc n) h = ap (λ ys. x ∷ ys) (take-all xs n (omega arith))

-- The number that a string of digits stands for.
unfoldable pub value : ℕ → List ℕ → ℕ
value acc [] = acc
value acc (d ∷ ds) = value (acc * 10 + (d - 48)) ds

value-append : (acc : ℕ) (xs ys : List ℕ) → value acc (xs ++ ys) ≡ value (value acc xs) ys
unfolding value
value-append acc [] ys = refl
value-append acc (x ∷ xs) ys = value-append (acc * 10 + (x - 48)) xs ys

value-digits : (n v : ℕ) → v < 10 ^ n → value 0 (digits n v) ≡ v
unfolding value digits
value-digits zero v h = omega arith
value-digits (suc n) v h = ground (
  arith,
  value-append 0 (digits n (v / 10)) ((48 + v % 10) ∷ []),
  value-digits n (v / 10),
  shrink n v h,
)
  where
    shrink : (n v : ℕ) → v < 10 ^ suc n → v / 10 < 10 ^ n
    shrink n v h = omega (arith, pow-suc 10 n)

value-decimal : (v : ℕ) → v < 2 ^ 31 → value 0 (decimal v) ≡ v
unfolding decimal
value-decimal v h = rw (lt→ltb v (2 ^ 31) h) (value-digits 10 v (omega arith))

-- In its array of 32 bytes the version is never cut, and it reads back: before the dot the major
-- number, behind it the minor one, where both are below 2^31.
pub get_version_lem :
    (major minor : ℕ)
    → major < 2 ^ 31
    → minor < 2 ^ 31
    → (before : List ℕ) × (behind : List ℕ) × (get_version major minor 32 ≡ before ++ (46 ∷ behind))
      × (value 0 before ≡ major)
      × (value 0 behind ≡ minor)
      × (length (version major minor) < 32)
unfolding get_version version
get_version_lem major minor h l =
    let bound : length (decimal major ++ (46 ∷ decimal minor)) ≤ 23 = omega (
      arith,
      length-append (decimal major) (46 ∷ decimal minor),
      length-decimal major,
      length-decimal minor,
    ) in
    (
      decimal major,
      decimal minor,
      take-all (decimal major ++ (46 ∷ decimal minor)) 31 (omega arith),
      value-decimal major h,
      value-decimal minor l,
      omega arith,
    )
