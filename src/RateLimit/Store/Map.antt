-- ===== src/RateLimit/Store/Map.antt =====
-- The laws of the maps of sharded_state.go, seen through `lookup`.
use agent_cortex.Prelude.{
  suc, ◌≡◌, refl, Bytes, bytes_eq, bytes_eq_iff, [], ◌∷◌, none, some, false, if◌then◌else◌, length,
  arith,
}
use agent_cortex.RateLimit.Store.{Entry, Items, lookup, insert, delete}

module _ {ℓ} {T : Type ℓ} where
  -- No key stands twice.
  abbrev pub Unique : Items T → Type ℓ
  Unique [] = Unit
  Unique ((k, e) ∷ m) = (lookup k m ≡ none) × Unique m

  pub lookup-insert :
      (k j : Bytes) (e : Entry T) (m : Items T)
      → lookup j (insert k e m) ≡ (if bytes_eq k j then some e else lookup j m)
  unfolding lookup insert
  lookup-insert k j e [] = refl
  lookup-insert k j e ((i, d) ∷ m) =
      ground (arith, bytes_eq_iff k j, bytes_eq_iff i k, bytes_eq_iff i j, lookup-insert k j e m)

  pub lookup-delete_ne :
      (k j : Bytes) (m : Items T) → bytes_eq k j ≡ false → lookup j (delete k m) ≡ lookup j m
  unfolding lookup delete
  lookup-delete_ne k j [] h = refl
  lookup-delete_ne k j ((i, d) ∷ m) h =
      ground (arith, bytes_eq_iff k j, bytes_eq_iff i k, bytes_eq_iff i j, lookup-delete_ne k j m h)

  pub lookup-delete_self : (k : Bytes) (m : Items T) → Unique m → lookup k (delete k m) ≡ none
  unfolding lookup delete
  lookup-delete_self k [] u = refl
  lookup-delete_self k ((i, d) ∷ m) u = ground (arith, bytes_eq_iff i k, lookup-delete_self k m u.1)

  pub insert-Unique : (k : Bytes) (e : Entry T) (m : Items T) → Unique m → Unique (insert k e m)
  unfolding lookup insert
  insert-Unique k e [] u = (refl, tt)
  insert-Unique k e ((i, d) ∷ m) u =
      ground
        (arith, bytes_eq_iff i k, bytes_eq_iff k i, lookup-insert k i e m, insert-Unique k e m u.1)

  pub delete-Unique : (k : Bytes) (m : Items T) → Unique m → Unique (delete k m)
  unfolding lookup delete
  delete-Unique k [] u = tt
  delete-Unique k ((i, d) ∷ m) u =
      ground
        (arith, bytes_eq_iff i k, bytes_eq_iff k i, lookup-delete_ne k i m, delete-Unique k m u.1)

  pub length-insert_new :
      (k : Bytes) (e : Entry T) (m : Items T)
      → lookup k m ≡ none
      → length (insert k e m) ≡ suc (length m)
  unfolding lookup insert
  length-insert_new k e [] h = refl
  length-insert_new k e ((i, d) ∷ m) h = ground (arith, length-insert_new k e m)

  pub length-insert_old :
      (k : Bytes) (e d : Entry T) (m : Items T)
      → lookup k m ≡ some d
      → length (insert k e m) ≡ length m
  unfolding lookup insert
  length-insert_old k e d [] h = cc
  length-insert_old k e d ((i, c) ∷ m) h = ground (arith, length-insert_old k e d m)

  pub length-delete :
      (k : Bytes) (d : Entry T) (m : Items T)
      → lookup k m ≡ some d
      → suc (length (delete k m)) ≡ length m
  unfolding lookup delete
  length-delete k d [] h = cc
  length-delete k d ((i, c) ∷ m) h = ground (arith, length-delete k d m)
