-- ===== src/Cache/Json.antt =====
-- app/core/cache.py, the functions over a backend, here the in-memory one. `json` is a parameter:
-- `loads` is `none` for the text of a null. The state of the program is `S`, beside the store.
use fastapi.Prelude.{ℕ, String, Option, none, some, Bool, ◌==◌, if◌then◌else◌}
use fastapi.Prelude.Text.{append}
use fastapi.Exec.{Exec, Outcome, returned, raised}
use fastapi.Cache.Memory.{Store}
use fastapi.Cache.Memory

pub record CacheSettings : Type 0 where
  pub enabled : Bool
  pub key_prefix : String
  pub default_ttl_seconds : ℕ

pub record JsonText (J : Type 0) : Type 0 where
  pub dumps : J → String
  pub loads : String → Option J

module _ (settings : CacheSettings) where
  open settings use {enabled, key_prefix, default_ttl_seconds}

  -- `_build_key`
  abbrev pub build_key : String → String
  build_key key = append key_prefix (append ":" key)

  -- `ttl_seconds or settings.cache.default_ttl_seconds`
  abbrev pub ttl_or_default : Option ℕ → ℕ
  ttl_or_default none = default_ttl_seconds
  ttl_or_default (some n) = if n == 0 then default_ttl_seconds else n

  module _ {J : Type 0} (json : JsonText J) where
    open json use {dumps, loads}

    abbrev pub parsed : Option String → Option J
    parsed none = none
    parsed (some raw) = loads raw

    unfoldable pub get_json : ℕ → String → Store → Option J × Store
    get_json now key store =
        if enabled
        then (let (raw, store') = Memory.get now (build_key key) store in (parsed raw, store'))
        else (none, store)

    unfoldable pub set_json : ℕ → String → J → Option ℕ → Store → Store
    set_json now key value ttl_seconds store =
        if enabled
        then Memory.set now (build_key key) (dumps value) (ttl_or_default ttl_seconds) store
        else store

    unfoldable pub delete_key : String → Store → Store
    delete_key key store = if enabled then Memory.delete (build_key key) store else store

    unfoldable pub delete_keys_with : String → Store → Store
    delete_keys_with prefix store =
        if enabled then Memory.delete_prefix (build_key prefix) store else store

    module _ {S T : Type 0} (loader : Exec S T) (serializer : T → J) (deserializer : J → T) where
      -- The end of `cached_json`, where nothing was found; `now` is the time at which the value is stored.
      abbrev pub store_loaded :
          ℕ → String → Option ℕ → Store → Outcome T × S → Outcome T × (Store × S)
      store_loaded now key ttl_seconds store (returned v, s) =
          (returned v, (set_json now key (serializer v) ttl_seconds store, s))
      store_loaded now key ttl_seconds store (raised e, s) = (raised e, (store, s))

      abbrev pub load_unless :
          ℕ → String → Option ℕ → S → Option J × Store → Outcome T × (Store × S)
      load_unless now key ttl_seconds s (some j, store) = (returned (deserializer j), (store, s))
      load_unless now key ttl_seconds s (none, store) =
          store_loaded now key ttl_seconds store (loader s)

      -- The value is looked up at the time `asked`, and stored, if it is loaded, at the time `now`.
      unfoldable pub cached_json : ℕ → ℕ → String → Option ℕ → Store × S → Outcome T × (Store × S)
      cached_json asked now key ttl_seconds (store, s) =
          load_unless now key ttl_seconds s (get_json asked key store)
