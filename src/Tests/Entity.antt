-- ===== src/Tests/Entity.antt =====
-- Runs of entity.c, and its theorems at concrete inputs.
use zephyr_esphome.Prelude.{
  ℕ, ◌*◌, ◌%◌, ◌^◌, ◌≤◌, ◌≡◌, ◌↔◌, refl, List, [], ◌∷◌, true, false, none, some, Code, success, neg,
  enospc,
}
use zephyr_esphome.Prelude.{arith}
use mathlib.Core.List.{Permᴰ}
use zephyr_esphome.Entity.Order.{Distinct, find_permuted}
use zephyr_esphome.Entity.{
  Entity, switch_entity, promoted, hash_round, fnv1_hash, entity_init, find_device_entity_by_key,
  string_copy_safe, strncpy, terminate,
}
use zephyr_esphome.Entity.Copy.{c_string, string_copy_safe_lem}

-- "led1" and "led2"
abbrev pub led : ℕ → List ℕ
led digit = 0x6c ∷ 0x65 ∷ 0x64 ∷ digit ∷ []

abbrev pub entity : ℕ → List ℕ → Entity ℕ
entity dev name = record {
  dev = dev;
  config = record {
    object_id = name;
    name = name;
    unique_id = name;
    icon = none;
    disabled_by_default = false;
    entity_category = 0;
    device_class = [];
  };
  key = 0;
  api_dev = none;
  list_entity = switch_entity;
}

abbrev pub leds : List (Entity ℕ)
leds = entity 1 (led 0x31) ∷ entity 2 (led 0x32) ∷ []

-- The hash of the empty string is one round over the NUL.
fnv1_hash_empty : fnv1_hash true [] ≡ 2166136261 * 16777619 % 2 ^ 32
unfolding fnv1_hash hash_round promoted
fnv1_hash_empty = refl

find_led2 : find_device_entity_by_key (fnv1_hash true (led 0x32)) (entity_init true 9 leds) ≡ some 2
unfolding find_device_entity_by_key entity_init fnv1_hash hash_round promoted
find_led2 = refl

copy_cut : string_copy_safe (some (led 0x31)) 4 ≡ some (neg enospc, 0x6c ∷ 0x65 ∷ 0x64 ∷ 0 ∷ [])
unfolding string_copy_safe strncpy terminate
copy_cut = refl

string_copy_safe_lem_example :
    (r : Code × List ℕ) × (string_copy_safe (some (led 0x31)) 4 ≡ some r)
    × (c_string r.1 ≡ some (0x6c ∷ 0x65 ∷ 0x64 ∷ []))
    × ((r.0 ≡ success) ↔ ((1 ≤ 4) × (4 ≤ 3)))
string_copy_safe_lem_example =
    string_copy_safe_lem (led 0x31) 3 ((λ e. cc), ((λ e. cc), ((λ e. cc), ((λ e. cc), tt))))

leds-Distinct : Distinct true 9 leds
unfolding Distinct fnv1_hash hash_round promoted
leds-Distinct = (((λ e. omega (arith, e)), tt), (tt, tt))

find_permuted_example :
    find_device_entity_by_key (fnv1_hash true (led 0x32)) (entity_init true 9 leds)
    ≡ find_device_entity_by_key
        (fnv1_hash true (led 0x32))
        (entity_init true 9 (entity 2 (led 0x32) ∷ entity 1 (led 0x31) ∷ []))
find_permuted_example =
    find_permuted true 9 (fnv1_hash true (led 0x32)) (Permᴰ.swap refl refl) leds-Distinct
