-- ===== src/Entity.antt =====
-- entity.c: the entities of the device, their keys, and the safe copy of a string. A C string is the
-- list of its bytes before the NUL.
pub mod Hash
pub mod Registry
pub mod Order
pub mod Copy
use zephyr_esphome.Prelude.{
  ℕ, zero, suc, ◌+◌, ◌-◌, ◌*◌, ◌%◌, ◌^◌, List, [], ◌∷◌, ◌++◌, Bool, true, false, Option, none, some,
  ◌&&◌, leb, ◌==◌, if◌then◌else◌, bit_xor, foldl, length, take, replicate, Code, neg, enodata,
  enospc, success,
}

-- What `hash ^= str[i]` adds of a byte: where `char` is signed, a byte from 128 on is a negative int.
unfoldable pub promoted : (signed_char : Bool) → ℕ → ℕ
promoted signed_char b = if signed_char && leb 128 b then b + 2 ^ 32 - 2 ^ 8 else b

-- One round of the loop of fnv1_hash, over uint32_t.
unfoldable pub hash_round : Bool → ℕ → ℕ → ℕ
hash_round signed_char hash b = bit_xor (hash * 16777619 % 2 ^ 32) (promoted signed_char b)

-- The loop runs over the NUL too: `i < (strlen(str) + 1)`.
unfoldable pub fnv1_hash : Bool → List ℕ → ℕ
unfolding hash_round promoted
fnv1_hash signed_char str = foldl (hash_round signed_char) 2166136261 (str ++ (0 ∷ []))

-- struct esphome_entity_config: `icon` may be NULL.
pub record EntityConfig : Type 0 where
  pub object_id : List ℕ
  pub name : List ℕ
  pub unique_id : List ℕ
  pub icon : Option (List ℕ)
  pub disabled_by_default : Bool
  pub entity_category : ℕ
  pub device_class : List ℕ

-- The functions that the member list_entity of an entity points to.
pub data EntityKind : Type 0 where
  switch_entity sensor_entity button_entity : EntityKind

-- struct esphome_entity, with what it points to. `Dev` is a device of Zephyr.
pub record Entity {ℓ} (Dev : Type ℓ) : Type ℓ where
  pub dev : Dev
  pub config : EntityConfig
  pub key : ℕ
  pub api_dev : Option Dev
  pub list_entity : EntityKind

module _ {ℓ} {Dev : Type ℓ} where
  -- esphome_entity_init, over the entities of the linker section.
  unfoldable pub entity_init : Bool → Dev → List (Entity Dev) → List (Entity Dev)
  entity_init signed_char api_dev [] = []
  entity_init signed_char api_dev (e ∷ es) =
      record e { key = fnv1_hash signed_char e.config.object_id; api_dev = some api_dev }
      ∷ entity_init signed_char api_dev es

  -- esphome_init of service.c
  unfoldable pub esphome_init : Bool → Dev → List (Entity Dev) → Code × List (Entity Dev)
  esphome_init signed_char api_dev es = (success, entity_init signed_char api_dev es)

  -- find_device_entity_by_key: the device of the first entity with the key, or NULL.
  unfoldable pub find_device_entity_by_key : ℕ → List (Entity Dev) → Option Dev
  find_device_entity_by_key key [] = none
  find_device_entity_by_key key (e ∷ es) =
      if e.key == key then some e.dev else find_device_entity_by_key key es

-- strncpy(dest, src, len): `len` bytes, filled up with NUL.
unfoldable pub strncpy : List ℕ → ℕ → List ℕ
strncpy src len = take len (src ++ replicate len 0)

-- The last of the bytes set to NUL: dest[len - 1] = '\0'.
unfoldable pub terminate : List ℕ → List ℕ
terminate [] = []
terminate (b ∷ []) = 0 ∷ []
terminate (b ∷ c ∷ bs) = b ∷ terminate (c ∷ bs)

-- _string_copy_safe(dest, src, len): the result, and the first bytes of `dest` as far as they are
-- written. `none` is NULL. With `len` 0 the code writes outside `dest`: that is no result.
unfoldable pub string_copy_safe : Option (List ℕ) → ℕ → Option (Code × List ℕ)
string_copy_safe src zero = none
string_copy_safe none (suc n) = some (neg enodata, 0 ∷ [])
string_copy_safe (some []) (suc n) = some (neg enodata, 0 ∷ [])
string_copy_safe (some (b ∷ bs)) (suc n) = some (
  if leb (suc n) (length (b ∷ bs)) then neg enospc else success,
  terminate (strncpy (b ∷ bs) (suc n)),
)
