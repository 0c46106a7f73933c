-- ===== src/RateLimit/Registry/Lookup.antt =====
-- pkg/ratelimit/ratelimit.go: what a registration changes.
use agent_cortex.Prelude.{
  ◌≡◌, refl, bytes_eq, bytes_eq_iff, Bool, [], ◌∷◌, Option, some, true, false, if◌then◌else◌, arith,
}
use agent_cortex.Strings.{is_empty}
use agent_cortex.RateLimit.Types.{
  Config, Kind, err, unknown_type, type_token_bucket, type_sliding_window,
  type_bucketed_sliding_window, type_gcra,
}
use agent_cortex.RateLimit.Registry.{
  Factory, Registry, factory_of, set_factory, register, build, new_limiter, new_default_registry,
}

module _ {ℓ} {L : Type ℓ} where
  factory_of-set_factory :
      (k j : Kind) (f : Factory L) (r : Registry L)
      → factory_of j (set_factory k f r) ≡ (if bytes_eq k j then some f else factory_of j r)
  unfolding factory_of set_factory
  factory_of-set_factory k j f [] = refl
  factory_of-set_factory k j f ((i, g) ∷ r) =
      ground (
        arith,
        bytes_eq_iff k j,
        bytes_eq_iff i k,
        bytes_eq_iff i j,
        factory_of-set_factory k j f r,
      )

  -- After a factory has been registered under a type that is not empty, a limiter of that type is
  -- built by it, also when the type was taken before, and every other type is built as before.
  pub register_exact :
      (r : Registry L) (k : Kind) (f : Factory L) (config : Config)
      → is_empty k ≡ false
      → new_limiter (register r k (some f)).0 config
        ≡ (if bytes_eq k config.kind then f config else new_limiter r config)
  unfolding register new_limiter
  register_exact r k f config e = ground (arith, e, factory_of-set_factory k config.kind f r)

  build_if :
      (b : Bool) (f : Factory L) (o : Option (Factory L)) (config : Config)
      → build (if b then some f else o) config ≡ (if b then f config else build o config)
  build_if true f o config = refl
  build_if false f o config = refl

  new_limiter-cons :
      (k : Kind) (f : Factory L) (r : Registry L) (config : Config)
      → new_limiter ((k, f) ∷ r) config
        ≡ (if bytes_eq k config.kind then f config else new_limiter r config)
  unfolding new_limiter factory_of
  new_limiter-cons k f r config =
      build_if (bytes_eq k config.kind) f (factory_of config.kind r) config

  default_registry_entries :
      (token sliding bucketed gcra : Factory L)
      → new_default_registry token sliding bucketed gcra
        ≡ (type_token_bucket, token)
          ∷ (type_sliding_window, sliding)
          ∷ (type_bucketed_sliding_window, bucketed)
          ∷ (type_gcra, gcra)
          ∷ []
  unfolding new_default_registry register set_factory bytes_eq
  default_registry_entries token sliding bucketed gcra = refl

  new_limiter-empty : (config : Config) → new_limiter {L = L} [] config ≡ err unknown_type
  unfolding new_limiter factory_of
  new_limiter-empty config = refl

  -- The default registry builds the package's four types by their constructors, and knows no other.
  pub default_registry_exact :
      (token sliding bucketed gcra : Factory L) (config : Config)
      → new_limiter (new_default_registry token sliding bucketed gcra) config ≡ (
          if bytes_eq type_token_bucket config.kind
          then token config
          else if bytes_eq type_sliding_window config.kind
          then sliding config
          else if bytes_eq type_bucketed_sliding_window config.kind
          then bucketed config
          else if bytes_eq type_gcra config.kind
          then gcra config
          else err unknown_type)
  default_registry_exact token sliding bucketed gcra config =
      let r4 : Registry L = (type_gcra, gcra) ∷ [] in
      let r3 : Registry L = (type_bucketed_sliding_window, bucketed) ∷ r4 in
      let r2 : Registry L = (type_sliding_window, sliding) ∷ r3 in
      rw
        (
          default_registry_entries token sliding bucketed gcra,
          new_limiter-cons type_token_bucket token r2 config,
          new_limiter-cons type_sliding_window sliding r3 config,
          new_limiter-cons type_bucketed_sliding_window bucketed r4 config,
          new_limiter-cons type_gcra gcra [] config,
          new_limiter-empty config,
        )
        refl
