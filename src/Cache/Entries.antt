-- ===== src/Cache/Entries.antt =====
-- The backend against what it promises: a value until its time is over.
use fastapi.Prelude.{
  ℕ, String, ◌≡◌, ◌≤◌, ◌+◌, Option, none, some, arith, ltb, str_eq, eq_iff, if◌then◌else◌,
}
use fastapi.Db.{seconds}
use fastapi.Cache.Memory.{CacheEntry, Store, get, set, delete, delete_prefix}
use text.Mathlib.Text.{starts_with}

abbrev pub live_value : ℕ → Option CacheEntry → Option String
live_value now none = none
live_value now (some e) = if ltb now e.expires_at then some e.value else none

-- What the store holds for a key at a time.
unfoldable pub held : ℕ → Store → String → Option String
held now store key = live_value now (store key)

abbrev pub until : ℕ → ℕ → String → Option String
until now expires value = if ltb now expires then some value else none

-- `get` answers what is held for the key, and changes nothing of what is held for any key then or
-- later.
pub get_lem :
    (now later : ℕ) (key j : String) (store : Store)
    → now ≤ later
    → ((get now key store).0 ≡ held now store key)
      × (held later (get now key store).1 j ≡ held later store j)
unfolding get held
get_lem now later key j store h = (ground arith, ground (arith, eq_iff key j))

-- `set` holds the value for the key until its time to live is over, `delete` forgets the key, and
-- `delete_prefix` forgets every key that begins with the prefix; none of them changes what is held
-- for another key.
pub writes_lem :
    (now ttl later : ℕ) (key value prefix j : String) (store : Store)
    → (held later (set now key value ttl store) j
        ≡ (if str_eq key j then until later (now + seconds ttl) value else held later store j))
      × (held later (delete key store) j ≡ (if str_eq key j then none else held later store j))
      × (held later (delete_prefix prefix store) j
          ≡ (if starts_with j prefix then none else held later store j))
unfolding set delete delete_prefix held
writes_lem now ttl later key value prefix j store = (ground arith, ground arith, ground arith)
