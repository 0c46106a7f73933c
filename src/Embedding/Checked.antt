-- ===== src/Embedding/Checked.antt =====
-- internal/embedding: what a vector has been checked for, against internal/memory/validation.go; and that
-- no process outlives a start that fails.
use agent_cortex.Prelude.{
  Bool, true, false, not, Bytes, List, [], ◌∷◌, Option, none, some, length, ◌==◌, ◌≡◌, refl, arith,
}
use agent_cortex.Prelude.Int.{pos, eqb_ℤ}
use mathlib.Core.Path.{subst}
use agent_cortex.Strings.{trim_space, is_empty}
use agent_cortex.Errors.{
  Error, Result, ok, err, guard, empty_input, invalid_vector, invalid_vector_value, >>=-eq-ok,
  >>-eq-ok, guard-eq-ok,
}
use agent_cortex.Memory.{Float32, all_finite, embedding_dimensions, validate_embedding}
use agent_cortex.Embedding.{validate_vector}
use agent_cortex.Embedding.Llama.{
  Llama, EmbeddingPost, Answer, answer_vector, embedding_post, checked, embed,
}
use agent_cortex.Embedding.System.{System, Happening, begun, closed}
use agent_cortex.Embedding.Providers.{Embedder, by_hash, by_llama, by_process}

finite_guard : (b : Bool) → guard b invalid_vector_value ≡ ok tt → b ≡ true
finite_guard true h = refl
finite_guard false h = cc

validate_vector-accepts :
    (v : List Float32)
    → validate_vector (pos embedding_dimensions) v ≡ ok tt
    → validate_embedding v ≡ ok tt
unfolding validate_vector validate_embedding
validate_vector-accepts v h =
    let (a, h1) =
      guard-eq-ok (eqb_ℤ (pos (length v)) (pos embedding_dimensions)) invalid_vector
        (guard (all_finite v) invalid_vector_value) h in
    let n : (length v == embedding_dimensions) ≡ true = ground (arith, a) in
    let f = finite_guard (all_finite v) h1 in rw (n, f) refl

module _ (l : Llama) (send : EmbeddingPost → Answer) where
  -- An embedder of as many dimensions as the memories have: whatever the server answers, a vector that it
  -- returns passes the checks of the memory service, and a text without a character that is no white
  -- space gets none.
  pub embed-validate_embedding :
      (early late : Option Error) (text : Bytes) (v : List Float32)
      → l.dimensions ≡ pos embedding_dimensions
      → embed l send early late text ≡ ok v
      → (validate_embedding v ≡ ok tt) × (is_empty (trim_space text) ≡ false)
  unfolding embed
  embed-validate_embedding (some e) late text v d h = cc
  embed-validate_embedding none late text v d h =
      let (t, h1) = guard-eq-ok (not (is_empty (trim_space text))) empty_input _ h in
      let (w, k, h2) =
        >>=-eq-ok (answer_vector late (send (embedding_post l send (trim_space text))))
          (checked l send) h1 in
      let (g, h3) = >>-eq-ok (validate_vector l.dimensions w) (ok w) h2 in
      let same : w ≡ v = cc (h3) in
      (
        validate_vector-accepts v (
            subst (λ u. validate_vector (pos embedding_dimensions) u ≡ ok tt) same
              (subst (λ n. validate_vector n w ≡ ok tt) d g)),
        ground (arith, t),
      )

-- Whether a process runs behind what happened.
abbrev pub is_running : Bool → List Happening → Bool
is_running now [] = now
is_running now (begun launch ∷ hs) = is_running true hs
is_running now (closed ∷ hs) = is_running false hs

abbrev pub is_managed : Result Embedder → Bool
is_managed (err e) = false
is_managed (ok (by_hash n)) = false
is_managed (ok (by_llama l)) = false
is_managed (ok (by_process l)) = true

abbrev is_ok {ℓ} : {A : Type ℓ} → Result A → Bool
is_ok (err e) = false
is_ok (ok l) = true
