-- ===== src/Entity/Registry.antt =====
-- esphome_entity_init and find_device_entity_by_key of entity.c: which entity a key finds.
use zephyr_esphome.Prelude.{
  ℕ, ◌≡◌, ◌≢◌, ◌↔◌, refl, List, [], ◌∷◌, ◌++◌, Bool, none, some, ◌==◌, ==_iff, arith, All,
  Bool-cases, inl, inr,
}
use zephyr_esphome.Entity.{Entity, fnv1_hash, entity_init, find_device_entity_by_key}

module _ {ℓ} {Dev : Type ℓ} (s : Bool) (api_dev : Dev) where
  -- No entity of the list has the key.
  abbrev pub Lacks : ℕ → List (Entity Dev) → Type 0
  Lacks key = All (λ e. fnv1_hash s e.config.object_id ≢ key)

  -- After esphome_entity_init, find_device_entity_by_key finds an entity by the hash of its name, if
  -- the entities before it have other hashes.
  pub find-entity_init :
      (front back : List (Entity Dev)) (e : Entity Dev)
      → Lacks (fnv1_hash s e.config.object_id) front
      → find_device_entity_by_key
          (fnv1_hash s e.config.object_id)
          (entity_init s api_dev (front ++ (e ∷ back)))
        ≡ some e.dev
  unfolding entity_init find_device_entity_by_key
  find-entity_init [] back e l =
      rw ((==_iff (fnv1_hash s e.config.object_id) (fnv1_hash s e.config.object_id)).1 refl) refl
  find-entity_init (x ∷ front) back e l = ground (arith, find-entity_init front back e l.1)

  -- It finds nothing just when no entity's name has the key for its hash.
  pub find-entity_init-none :
      (key : ℕ) (es : List (Entity Dev))
      → (find_device_entity_by_key key (entity_init s api_dev es) ≡ none) ↔ Lacks key es
  unfolding entity_init find_device_entity_by_key
  find-entity_init-none key [] = (λ _. tt, λ _. refl)
  find-entity_init-none key (x ∷ es) =
      let (to, from) = find-entity_init-none key es in
      elim (Bool-cases (fnv1_hash s x.config.object_id == key)) [
        | inl here ↦ (
          λ e. (let e' : some x.dev ≡ none = rw here at e in cc e'),
          λ l. absurd (l.0 ((==_iff _ key).0 here)),
        )
        | inr later ↦ (
          λ e. (λ same. cc (later, (==_iff _ key).1 same), to (rw later at e)),
          λ l. rw later (from l.1),
        )
      ]
