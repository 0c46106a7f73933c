-- ===== src/Memory.antt =====
-- internal/memory: memories, the checks of the service, and its storage behind an interface. A
-- float32 is its 32 bits, a float64 its 64 bits.
pub mod Checks
use agent_cortex.Prelude.{
  ℕ, suc, ◌/◌, ◌%◌, ◌^◌, Bool, true, false, not, ◌&&◌, Bytes, bytes_eq, List, [], ◌∷◌, Option, none,
  some, length, ltb, ◌==◌, if◌then◌else◌,
}
use agent_cortex.Prelude.Int.{ℤ, pos, ltb_ℤ, leb_ℤ}
use agent_cortex.RateLimit.Types.{Time}
use agent_cortex.Errors.{
  Error, Result, ok, err, sentinel, invalid_embedding, invalid_embedding_value, guard, ◌>>=◌, ◌>>◌,
}

abbrev pub Float32 : Type 0
Float32 = ℕ

abbrev pub Float64 : Type 0
Float64 = ℕ

abbrev pub daily_markdown_storage_version : ℤ
daily_markdown_storage_version = pos 1

pub record Memory : Type 0 where
  pub id : Bytes
  pub agent_id : Bytes
  pub user_id : Bytes
  pub question : Bytes
  pub answer : Bytes
  pub content : Bytes
  pub embedding : List Float32
  pub recorded_at : Time
  pub storage_version : ℤ

pub record SearchResult : Type 0 where
  pub id : Bytes
  pub content : Bytes
  pub distance : Float64
  pub recorded_at : Time

-- `SameContent`
unfoldable pub same_content : Memory → Memory → Bool
same_content l r =
    bytes_eq l.id r.id
    && bytes_eq l.agent_id r.agent_id
    && bytes_eq l.user_id r.user_id
    && bytes_eq l.question r.question
    && bytes_eq l.answer r.answer

abbrev pub embedding_dimensions : ℕ
embedding_dimensions = 4

abbrev pub default_search_limit : ℤ
default_search_limit = pos 10

abbrev pub max_search_limit : ℤ
max_search_limit = pos 100

-- `!(math.IsNaN(v) || math.IsInf(v, 0))`: the exponent is not all ones.
abbrev pub is_finite : Float32 → Bool
is_finite v = not (v / 2 ^ 23 % 256 == 255)

unfoldable pub all_finite : List Float32 → Bool
all_finite [] = true
all_finite (v ∷ vs) = is_finite v && all_finite vs

-- `validateEmbedding`
unfoldable pub validate_embedding : List Float32 → Result (Unit {0})
unfolding all_finite
validate_embedding v = do
  guard (length v == embedding_dimensions) invalid_embedding
  guard (all_finite v) invalid_embedding_value

-- `normalizeSearchLimit`
unfoldable pub normalize_search_limit : ℤ → ℤ
normalize_search_limit limit =
    if leb_ℤ limit (pos 0)
    then default_search_limit
    else if ltb_ℤ max_search_limit limit
    then max_search_limit
    else limit

-- `Backend`, over the state of the storage.
pub record Backend : Type 1 where
  pub State : Type 0
  pub save : State → Memory → State × Result (Unit {0})
  pub find_by_id : State → Bytes → Result (Option Memory)
  pub search : State → Bytes → Bytes → List Float32 → ℤ → Result (List SearchResult)

module _ (B : Backend) where
  -- `Store.Save`
  abbrev pub store_save : B.State → Memory → Result (Unit {0}) → B.State × Result (Unit {0})
  store_save s m (ok _) = B.save s m
  store_save s m (err e) = (s, err e)

  -- `Service.Save`
  unfoldable pub save : B.State → Memory → B.State × Result (Unit {0})
  unfolding validate_embedding
  save s m =
      store_save s m (if length m.embedding == 0 then ok tt else validate_embedding m.embedding)

  -- `Service.FindByID`
  abbrev pub find_by_id : B.State → Bytes → Result (Option Memory)
  find_by_id s id = B.find_by_id s id

  -- `Service.Search`
  unfoldable pub search : B.State → Bytes → Bytes → List Float32 → ℤ → Result (List SearchResult)
  unfolding validate_embedding normalize_search_limit
  search s agent_id user_id v limit =
      validate_embedding v >> B.search s agent_id user_id v (normalize_search_limit limit)
