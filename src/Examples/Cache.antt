-- ===== src/Examples/Cache.antt =====
-- Tokens and commands in memory, and a breaker that is open.
use mern_auth.Prelude.{arith, ◌≡◌, ◌≢◌, refl, some, [], false}
use mern_auth.Text.{text_eq, codes}
use mern_auth.Errors.{open_breaker, token_creation_error}
use mern_auth.Exec.{Exec, returned, raised}
use mern_auth.Cache.{Command, Reply, ping_cmd, CacheService, IsTotal}
use mern_auth.Cache.Memory.{Entries, memory}
use mern_auth.Cache.Adapter.{redis_cache_adapter}
use mern_auth.Cache.Proxy.{
  guarded_cache, guarded_cache-IsTotal, proxied, proxied-raises, is_pass_through,
  is_non_critical_command, command_name,
}
use mern_auth.Auth.Memory.{memory_host, memory_host-HostLaws}
use mern_auth.Auth.Token.{create_verification_token, verify_token, verify_key}
use mern_auth.Auth.Token.Laws.{with_token, verify_token-create, create_verification_token-returned}
use mern_auth.Examples.Setting.{services, cached, config, fresh, ann_user}

abbrev refusing : Command → Exec Entries Reply
refusing command s = raised open_breaker s

verify_token-create_example :
    verify_token services.cache config memory_host fresh
      (with_token services.cache config memory_host cached fresh ann_user [])
    ≡ returned
        (record { user_id = some ann_user.id; type_name = "verification" })
        (with_token services.cache config memory_host cached fresh ann_user [])
verify_token-create_example =
    verify_token-create services.cache config memory_host cached memory_host-HostLaws fresh ann_user
      [] (with_token services.cache config memory_host cached fresh ann_user []) fresh
      (create_verification_token-returned services.cache config memory_host cached fresh ann_user
        [])

other_key :
    verify_key services.cache config memory_host fresh
    ≢ verify_key services.cache config memory_host (codes "beef")
unfolding verify_key
other_key = ground arith

guarded_cache-IsTotal_example : IsTotal (guarded_cache memory refusing)
guarded_cache-IsTotal_example = guarded_cache-IsTotal memory refusing

ping_critical : is_non_critical_command (command_name ping_cmd) ≡ false
unfolding is_non_critical_command text_eq
ping_critical = refl

ping_guarded : is_pass_through (command_name ping_cmd) ≡ false
unfolding is_pass_through text_eq
ping_guarded = refl

proxied-raises_example : proxied memory refusing ping_cmd [] ≡ raised open_breaker []
proxied-raises_example =
    proxied-raises memory refusing ping_cmd [] [] open_breaker ping_critical ping_guarded refl

-- A Redis that is not guarded, and out of reach.
abbrev broken : CacheService Entries
broken = redis_cache_adapter refusing

broken_creation :
    create_verification_token broken config memory_host fresh ann_user []
    ≡ raised (token_creation_error "Token creation failed" open_breaker) []
unfolding create_verification_token redis_cache_adapter
broken_creation = refl
