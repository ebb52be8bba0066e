-- ===== src/Cache.antt =====
-- The cache contract, packages/contracts/src/services/cache.service.ts, and the Redis commands and
-- replies behind it.
pub mod Adapter
pub mod Proxy
pub mod Memory
use mern_auth.Prelude.{ℕ, ◌≡◌, Bool, Option, none, some, if◌then◌else◌}
use mern_auth.Text.{Text, text_eq}
use mern_auth.Exec.{Exec, returned, raised}

pub data ExpiryMode : Type 0 where
  ex px : ExpiryMode

-- How long a key lives: with no expiry, in seconds, in milliseconds.
pub data Lifetime : Type 0 where
  forever : Lifetime
  seconds : ℕ → Lifetime
  milliseconds : ℕ → Lifetime

pub data Command : Type 0 where
  get_cmd : Text → Command
  set_cmd : Text → Text → Lifetime → Command
  del_cmd : Text → Command
  ttl_cmd : Text → Command
  exists_cmd : Text → Command
  ping_cmd : Command
  other_cmd : Text → Command

pub data Reply : Type 0 where
  null : Reply
  bulk : Text → Reply
  number : ℕ → Reply
  negative : ℕ → Reply

-- What a caller of get sees: the text or null.
abbrev pub as_text : Reply → Option Text
as_text (bulk t) = some t
as_text _ = none

-- ICacheService
pub record CacheService (C : Type 0) : Type 0 where
  pub get : Text → Exec C (Option Text)
  pub set : Text → Text → Option ExpiryMode → Option ℕ → Exec C Reply
  pub del : Text → Exec C Reply
  pub ttl : Text → Exec C Reply
  pub exists : Text → Exec C Reply
  pub ping : Exec C Reply

-- A cache that is reachable: every operation returns, and works on the map `read`.
pub record IsStore {C : Type 0} (cache : CacheService C) : Type 0 where
  pub read : C → Text → Option Text
  pub write : Text → Text → Option ExpiryMode → Option ℕ → C → C
  pub erase : Text → C → C
  pub set_reply : Text → C → Reply
  pub del_reply : Text → C → Reply
  pub ttl_reply : Text → C → Reply
  pub get_lem : (k : Text) (c : C) → cache.get k c ≡ returned (read c k) c
  pub set_lem :
      (k v : Text) (m : Option ExpiryMode) (t : Option ℕ) (c : C)
      → cache.set k v m t c ≡ returned (set_reply k c) (write k v m t c)
  pub del_lem : (k : Text) (c : C) → cache.del k c ≡ returned (del_reply k c) (erase k c)
  pub ttl_lem : (k : Text) (c : C) → cache.ttl k c ≡ returned (ttl_reply k c) c
  pub read-write :
      (k v : Text) (m : Option ExpiryMode) (t : Option ℕ) (c : C) (j : Text)
      → read (write k v m t c) j ≡ (if text_eq k j then some v else read c j)
  pub read-erase :
      (k : Text) (c : C) (j : Text) → read (erase k c) j ≡ (if text_eq k j then none else read c j)

-- A cache whose get, set, del and ttl may lose data but never throw.
pub record IsTotal {C : Type 0} (cache : CacheService C) : Type 0 where
  pub get_total :
      (k : Text) (c : C) → (r : Option Text) × (c' : C) × (cache.get k c ≡ returned r c')
  pub set_total :
      (k v : Text) (m : Option ExpiryMode) (t : Option ℕ) (c : C)
      → (r : Reply) × (c' : C) × (cache.set k v m t c ≡ returned r c')
  pub del_total : (k : Text) (c : C) → (r : Reply) × (c' : C) × (cache.del k c ≡ returned r c')
  pub ttl_total : (k : Text) (c : C) → (r : Reply) × (c' : C) × (cache.ttl k c ≡ returned r c')
