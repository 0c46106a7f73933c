-- ===== src/Memory/Checks.antt =====
-- internal/memory/service.go, validation.go and query.go: what reaches the storage.
use agent_cortex.Prelude.{
  ℕ, zero, suc, ltb, ◌≤◌, Bool, true, false, Bytes, List, length, ◌==◌, if◌then◌else◌, ◌≡◌, ◌≢◌,
  ◌⊎◌, refl, sym, ap, ◌∙◌, arith, Bool-cases, inl, inr,
}
use agent_cortex.Prelude.Int.{ℤ, pos, negsuc}
use agent_cortex.Errors.{
  Result, ok, err, guard, invalid_embedding, invalid_embedding_value, >>-eq-ok, guard-eq-ok,
}
use agent_cortex.Memory.{
  Memory, SearchResult, Float32, Backend, all_finite, validate_embedding, normalize_search_limit,
  embedding_dimensions, default_search_limit, max_search_limit, store_save,
}
use agent_cortex.Memory as M

guard-true : (t : Bool) (s : _) → guard t s ≡ ok tt → t ≡ true
guard-true true s h = refl
guard-true false s h = cc (h)

-- An embedding of four finite numbers.
abbrev pub IsEmbedding : List Float32 → Type 0
IsEmbedding v = (length v ≡ embedding_dimensions) × (all_finite v ≡ true)

validate_embedding-IsEmbedding : (v : List Float32) → validate_embedding v ≡ ok tt → IsEmbedding v
unfolding validate_embedding
validate_embedding-IsEmbedding v h =
    let (a, r) = guard-eq-ok (length v == embedding_dimensions) invalid_embedding _ h in
    (ground (arith, a), guard-true (all_finite v) invalid_embedding_value r)

limit-bounds : (n : ℤ) → (k : ℕ) × (normalize_search_limit n ≡ pos k) × (1 ≤ k) × (k ≤ 100)
unfolding normalize_search_limit
limit-bounds (negsuc n) = (10, ground arith, omega arith, omega arith)
limit-bounds (pos zero) = (10, refl, omega arith, omega arith)
limit-bounds (pos (suc n)) = elim (Bool-cases (ltb 100 (suc n))) [
  | inl a ↦ (100, ground (arith, a), omega arith, omega arith)
  | inr a ↦ (suc n, ground (arith, a), omega arith, ground (arith, a))
]

module _ (B : Backend) where
  -- A search that succeeds has had an embedding of four finite numbers, and its results are those of the
  -- storage for the same user, agent and embedding and a limit of at least 1 and at most 100.
  pub search-bounds :
      (s : B.State) (agent_id user_id : Bytes) (v : List Float32) (limit : ℤ)
      (rs : List SearchResult)
      → M.search B s agent_id user_id v limit ≡ ok rs
      → IsEmbedding v
        × ((n : ℕ) × (1 ≤ n) × (n ≤ 100) × (B.search s agent_id user_id v (pos n) ≡ ok rs))
  unfolding M.search
  search-bounds s agent_id user_id v limit rs h =
      let (c, r) = >>-eq-ok (validate_embedding v) _ h in
      let (n, e, low, high) = limit-bounds limit in
      (
        validate_embedding-IsEmbedding v c,
        (n, low, high, sym (ap (B.search s agent_id user_id v) e) ∙ r),
      )

  store_save-checked :
      (s s' : B.State) (m : Memory) (c r : Result (Unit {0}))
      → store_save B s m c ≡ (s', r)
      → ((c ≡ ok tt) × (B.save s m ≡ (s', r))) ⊎ ((s' ≡ s) × (r ≢ ok tt))
  store_save-checked s s' m (ok a) r h = inl (refl, h)
  store_save-checked s s' m (err e) r h = inr (
    sym (ap (λ (p : B.State × Result (Unit {0})). p.0) h),
    λ q. cc (ap (λ (p : B.State × Result (Unit {0})). p.1) h, q),
  )

  checked :
      (v : List Float32)
      → (if length v == 0 then ok tt else validate_embedding v) ≡ ok tt
      → (length v ≡ 0) ⊎ IsEmbedding v
  checked v h = elim (Bool-cases (length v == 0)) [
    | inl a ↦ inl (ground (arith, a))
    | inr a ↦ inr (validate_embedding-IsEmbedding v (ground (arith, a, h)))
  ]

  -- A memory reaches the storage without an embedding or with one of four finite numbers; another one is
  -- refused, and the storage is as it was.
  pub save-checked :
      (s s' : B.State) (m : Memory) (r : Result (Unit {0}))
      → M.save B s m ≡ (s', r)
      → (((length m.embedding ≡ 0) ⊎ IsEmbedding m.embedding) × (B.save s m ≡ (s', r)))
        ⊎ ((s' ≡ s) × (r ≢ ok tt))
  unfolding M.save
  save-checked s s' m r h = elim (store_save-checked s s' m _ r h) [
    | inl (c, q) ↦ inl (checked m.embedding c, q)
    | inr q ↦ inr q
  ]
