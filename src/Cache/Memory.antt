-- ===== src/Cache/Memory.antt =====
-- app/core/cache.py, `MemoryCacheBackend`. A time is a number of microseconds; the lock is left out: a
-- method runs whole.
use fastapi.Prelude.{ℕ, String, Option, none, some, not, ◌+◌, leb, if◌then◌else◌}
use fastapi.Prelude.Dict.{Dict, empty, put, remove, keep}
use fastapi.Db.{seconds}
use text.Mathlib.Text.{starts_with}

pub record CacheEntry : Type 0 where
  pub value : String
  pub expires_at : ℕ

abbrev pub Store : Type 0
Store = Dict CacheEntry

-- `get` on the entry that was found.
abbrev pub get_entry : ℕ → String → Store → Option CacheEntry → Option String × Store
get_entry now key store none = (none, store)
get_entry now key store (some e) =
    if leb e.expires_at now then (none, remove key store) else (some e.value, store)

unfoldable pub get : ℕ → String → Store → Option String × Store
get now key store = get_entry now key store (store key)

unfoldable pub set : ℕ → String → String → ℕ → Store → Store
set now key value ttl_seconds store =
    put key (record { value = value; expires_at = now + seconds ttl_seconds }) store

unfoldable pub delete : String → Store → Store
delete key store = remove key store

unfoldable pub delete_prefix : String → Store → Store
delete_prefix prefix store = keep (λ key e. not (starts_with key prefix)) store

unfoldable pub clear : Store → Store
clear store = empty
