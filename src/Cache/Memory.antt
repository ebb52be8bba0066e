-- ===== src/Cache/Memory.antt =====
-- A server in memory, at which the laws of a reachable Redis hold.
use mern_auth.Prelude.{◌≡◌, refl, Option, none, some, List, [], ◌∷◌, arith, if◌then◌else◌}
use mern_auth.Text.{Text, codes, text_eq}
use mern_auth.Text.Laws.{text_eq_iff}
use mern_auth.Exec.{Exec, returned}
use mern_auth.Cache.{
  Lifetime, Command, get_cmd, set_cmd, del_cmd, ttl_cmd, exists_cmd, ping_cmd, other_cmd, Reply,
  null, bulk, number, negative,
}
use mern_auth.Cache.Adapter.{RedisLaws}

abbrev pub Entries : Type 0
Entries = List (Text × Text)

unfoldable pub lookup : Text → Entries → Option Text
lookup k [] = none
lookup k ((j, v) ∷ m) = if text_eq j k then some v else lookup k m

unfoldable pub without : Text → Entries → Entries
without k [] = []
without k ((j, v) ∷ m) = let rest = without k m in if text_eq j k then rest else (j, v) ∷ rest

pub lookup-without :
    (k : Text) (m : Entries) (j : Text)
    → lookup j (without k m) ≡ (if text_eq k j then none else lookup j m)
unfolding lookup without
lookup-without k [] j = ground arith
lookup-without k ((i, v) ∷ m) j =
    ground (arith, lookup-without k m j, text_eq_iff i k, text_eq_iff i j, text_eq_iff k j)

abbrev get_reply : Option Text → Reply
get_reply none = null
get_reply (some v) = bulk v

abbrev count_reply : Option Text → Reply
count_reply none = number 0
count_reply (some v) = number 1

unfoldable pub memory : Command → Exec Entries Reply
unfolding lookup without
memory (get_cmd k) m = returned (get_reply (lookup k m)) m
memory (set_cmd k v l) m = returned (bulk (codes "OK")) ((k, v) ∷ without k m)
memory (del_cmd k) m = returned (count_reply (lookup k m)) (without k m)
memory (ttl_cmd k) m = returned (negative 1) m
memory (exists_cmd k) m = returned (count_reply (lookup k m)) m
memory ping_cmd m = returned (bulk (codes "PONG")) m
memory (other_cmd name) m = returned null m

pub stored_read :
    (k v : Text) (l : Lifetime) (m : Entries) (j : Text)
    → lookup j ((k, v) ∷ without k m) ≡ (if text_eq k j then some v else lookup j m)
unfolding lookup
stored_read k v l m j = ground (arith, lookup-without k m j)

unfoldable pub memory-RedisLaws : RedisLaws memory
unfolding memory
memory-RedisLaws = record {
  live = λ m k. lookup k m;
  stored = λ k v l m. (k, v) ∷ without k m;
  removed = without;
  set_answer = λ k m. bulk (codes "OK");
  del_answer = λ k m. count_reply (lookup k m);
  ttl_answer = λ k m. negative 1;
  get_cmd_some = λ k v m h. rw h;
  get_cmd_none = λ k m h. rw h;
  set_cmd_lem = λ k v l m. refl;
  del_cmd_lem = λ k m. refl;
  ttl_cmd_lem = λ k m. refl;
  live-stored = stored_read;
  live-removed = lookup-without;
}
