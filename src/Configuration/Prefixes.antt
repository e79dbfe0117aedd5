-- ===== src/Configuration/Prefixes.antt =====
-- The key spaces of the core and of the panel.
use mocko.Base.{◌≡◌, refl, ap, Text, txt, Option, none, some, trim, or_else, nat_eq, text_eq}
use mocko.Configuration.{
  Environment, filled, versioned, trimmed, get_redis_prefix, panel_redis_prefix, get_store_config,
}

trimmed_tidy :
    (o : Option Text) → ((value : Text) → o ≡ some value → trim value ≡ value) → trimmed o ≡ o
trimmed_tidy none tidy = refl
trimmed_tidy (some value) tidy = ap some (tidy value refl)

-- Where REDIS_PREFIX is not set, or has no white space around it, the core and the panel use one prefix
-- for the keys of Redis, in the options of its client too.
pub get_store_config-prefix :
    {N : Type 0} (number : Text → Option N) (port database limit : N) (env : Environment)
    → ((value : Text) → env (txt "REDIS_PREFIX") ≡ some value → trim value ≡ value)
    → ((get_store_config number port database limit env).redis_prefix ≡ get_redis_prefix number env)
      × ((get_store_config number port database limit env).redis_options.key_prefix
          ≡ get_redis_prefix number env)
unfolding get_store_config panel_redis_prefix get_redis_prefix
get_store_config-prefix number port database limit env tidy =
    let same : panel_redis_prefix (env (txt "REDIS_PREFIX")) ≡ get_redis_prefix number env =
      ap (λ o. versioned (or_else (filled o) (txt "mocko:")))
        (trimmed_tidy (env (txt "REDIS_PREFIX")) tidy) in
    (same, same)
