-- ===== src/Entity/Order.antt =====
-- The order of the entities in the linker section, and find_device_entity_by_key of entity.c.
use zephyr_esphome.Prelude.{
  ℕ, ◌≡◌, refl, sym, ap, ◌∙◌, List, [], ◌∷◌, Bool, ◌==◌, ==_iff, arith, Bool-cases, inl, inr,
}
use mathlib.Core.Path.{subst}
use mathlib.Core.List.{Permᴰ}
use zephyr_esphome.Entity.{Entity, fnv1_hash, entity_init, find_device_entity_by_key}
use zephyr_esphome.Entity.Registry.{Lacks}

module _ {ℓ} {Dev : Type ℓ} (s : Bool) (api_dev : Dev) where
  -- No two names have the same hash.
  unfoldable pub Distinct : List (Entity Dev) → Type 0
  Distinct [] = Unit {0}
  Distinct (e ∷ es) = Lacks s api_dev (fnv1_hash s e.config.object_id) es × Distinct es

  Lacks-permuted :
      (key : ℕ) {es es' : List (Entity Dev)}
      → Permᴰ es es'
      → Lacks s api_dev key es
      → Lacks s api_dev key es'
  Lacks-permuted key Permᴰ.nil l = l
  Lacks-permuted key (Permᴰ.cons e d) (l, ls) = (rw (← e) l, Lacks-permuted key d ls)
  Lacks-permuted key (Permᴰ.swap e e') (l, (l', ls)) = (rw (← e') l', (rw (← e) l, ls))
  Lacks-permuted key (Permᴰ.trans d d') l = Lacks-permuted key d' (Lacks-permuted key d l)

  swap-Distinct :
      (a b : Entity Dev) (l : List (Entity Dev)) → Distinct (a ∷ b ∷ l) → Distinct (b ∷ a ∷ l)
  unfolding Distinct
  swap-Distinct a b l ((n, ls), (ls', h)) = (((λ same. n (sym same)), ls'), (ls, h))

  Distinct-permuted : {es es' : List (Entity Dev)} → Permᴰ es es' → Distinct es → Distinct es'
  unfolding Distinct
  Distinct-permuted Permᴰ.nil h = h
  Distinct-permuted (Permᴰ.cons e d) (l, h) =
      (rw (← e) (Lacks-permuted _ d l), Distinct-permuted d h)
  Distinct-permuted (Permᴰ.swap {a = a} {b = b} {b' = b'} {l = l} e e') h =
      subst (λ (x : Entity Dev). Distinct (x ∷ b' ∷ l)) e'
        (subst (λ (x : Entity Dev). Distinct (b ∷ x ∷ l)) e (swap-Distinct a b l h))
  Distinct-permuted (Permᴰ.trans d d') h = Distinct-permuted d' (Distinct-permuted d h)

  find-swap :
      (key : ℕ) (a b : Entity Dev) (l : List (Entity Dev))
      → Distinct (a ∷ b ∷ l)
      → find_device_entity_by_key key (entity_init s api_dev (a ∷ b ∷ l))
        ≡ find_device_entity_by_key key (entity_init s api_dev (b ∷ a ∷ l))
  unfolding Distinct entity_init find_device_entity_by_key
  find-swap key a b l ((n, ls), h) = elim (Bool-cases (fnv1_hash s a.config.object_id == key)) [
    | inl here ↦ elim (Bool-cases (fnv1_hash s b.config.object_id == key)) [
      | inl both ↦ absurd (n ((==_iff _ key).0 both ∙ sym ((==_iff _ key).0 here)))
      | inr other ↦ rw (here, other) refl
    ]
    | inr there ↦ rw there refl
  ]

  -- When no two names have the same hash, the order in which the linker puts the entities changes nothing: every key
  -- finds the same device, or none, in any order of them.
  pub find_permuted :
      {es es' : List (Entity Dev)} (key : ℕ)
      → Permᴰ es es'
      → Distinct es
      → find_device_entity_by_key key (entity_init s api_dev es)
        ≡ find_device_entity_by_key key (entity_init s api_dev es')
  unfolding Distinct entity_init find_device_entity_by_key
  find_permuted key Permᴰ.nil h = refl
  find_permuted key (Permᴰ.cons {a = a} e d) (l, h) = rw (← e) ground (arith, find_permuted key d h)
  find_permuted key (Permᴰ.swap {a = a} {b = b} {b' = b'} {l = l} e e') h =
      find-swap key a b l h
      ∙ ap (λ (x : Entity Dev). find_device_entity_by_key key (entity_init s api_dev (b ∷ x ∷ l))) e
      ∙ ap (λ (x : Entity Dev). find_device_entity_by_key key (entity_init s api_dev (x ∷ b' ∷ l)))
          e'
  find_permuted key (Permᴰ.trans d d') h =
      find_permuted key d h ∙ find_permuted key d' (Distinct-permuted d h)
