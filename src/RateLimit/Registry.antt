-- ===== src/RateLimit/Registry.antt =====
-- pkg/ratelimit/ratelimit.go: the registry of limiter factories. A limiter is of any type, since a
-- factory is any function of the configuration.
pub mod Lookup
use agent_cortex.Prelude.{Bytes, bytes_eq, List, [], ◌∷◌, Option, none, some, if◌then◌else◌}
use agent_cortex.Strings.{is_empty}
use agent_cortex.RateLimit.Types.{
  Config, Kind, Error, Result, ok, err, nil_factory, invalid_config, unknown_type,
  type_token_bucket, type_sliding_window, type_bucketed_sliding_window, type_gcra,
}

abbrev pub Factory {ℓ} : Type ℓ → Type ℓ
Factory L = Config → Result L

-- `r.factories`
abbrev pub Registry {ℓ} : Type ℓ → Type ℓ
Registry L = List (Kind × Factory L)

module _ {ℓ} {L : Type ℓ} where
  abbrev pub new_registry : Registry L
  new_registry = []

  unfoldable pub factory_of : Kind → Registry L → Option (Factory L)
  factory_of k [] = none
  factory_of k ((j, f) ∷ r) = if bytes_eq j k then some f else factory_of k r

  unfoldable pub set_factory : Kind → Factory L → Registry L → Registry L
  set_factory k f [] = (k, f) ∷ []
  set_factory k f ((j, g) ∷ r) = if bytes_eq j k then (j, f) ∷ r else (j, g) ∷ set_factory k f r

  -- `Register`
  unfoldable pub register : Registry L → Kind → Option (Factory L) → Registry L × Option Error
  register r k none = (r, some nil_factory)
  register r k (some f) = if is_empty k then (r, some invalid_config) else (set_factory k f r, none)

  abbrev pub build : Option (Factory L) → Config → Result L
  build none config = err unknown_type
  build (some f) config = f config

  -- `NewLimiter`
  unfoldable pub new_limiter : Registry L → Config → Result L
  new_limiter r config = build (factory_of config.kind r) config

  -- `newDefaultRegistry`, by the four constructors of the package.
  unfoldable pub new_default_registry : Factory L → Factory L → Factory L → Factory L → Registry L
  new_default_registry token sliding bucketed gcra =
      let r1 = (register new_registry type_token_bucket (some token)).0 in
      let r2 = (register r1 type_sliding_window (some sliding)).0 in
      let r3 = (register r2 type_bucketed_sliding_window (some bucketed)).0 in
      (register r3 type_gcra (some gcra)).0
