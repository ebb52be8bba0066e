-- ===== src/Auth/Keys.antt =====
-- packages/utils/src/redis/index.ts
use mern_auth.Prelude.{String, ◌++◌, is_empty, if◌then◌else◌}
use mern_auth.Errors.{Result, ok, err, plain}
use mern_auth.Text.{Text}

-- createRedisKey; the labels stand in the messages alone.
unfoldable pub create_redis_key : Text → Text → String → String → Result Text
create_redis_key key_prefix value prefix_label value_label =
    if is_empty key_prefix
    then err (plain prefix_label)
    else if is_empty value
    then err (plain value_label)
    else ok (key_prefix ++ value)

unfoldable pub create_auth_rate_limit_key : Text → Text → Result Text
unfolding create_redis_key
create_auth_rate_limit_key key_prefix identifier =
    create_redis_key key_prefix identifier "Redis key prefix is required"
      "Redis key identifier is required"

unfoldable pub create_verify_email_key : Text → Text → Result Text
unfolding create_redis_key
create_verify_email_key key_prefix hashed_token =
    create_redis_key key_prefix hashed_token "Redis key prefix is required"
      "Redis key Hashed token is required"

unfoldable pub create_session_key : Text → Text → Result Text
unfolding create_redis_key
create_session_key key_prefix session_id =
    create_redis_key key_prefix session_id "Redis key prefix is required"
      "Redis key Session ID is required"
