-- ===== src/Cache/ReadThrough.antt =====
-- A value that was loaded is read back until its time is over.
use fastapi.Prelude.{ℕ, String, ◌≡◌, ◌<◌, ◌+◌, Option, none, some, true, arith, eq_iff}
use fastapi.Exec.{Exec, returned}
use fastapi.Db.{seconds}
use fastapi.Cache.Memory.{Store, get, set}
use fastapi.Cache.Entries.{held, get_lem, writes_lem}
use fastapi.Cache.Json.{
  CacheSettings, JsonText, build_key, ttl_or_default, get_json, set_json, cached_json,
}

module _ (settings : CacheSettings) {J S T : Type 0} (json : JsonText J) (loader : Exec S T)
    (serializer : T → J) (deserializer : J → T) where
  open settings use {enabled}
  open json use {dumps, loads}

  -- Let the text of a value parse to it, and deserialising undo serialising. Once `cached_json` has
  -- loaded a value and stored it with the cache enabled, a call for the same key before the time to
  -- live is over returns that value, and does not run the loader.
  pub cached_json_again :
      enabled ≡ true
      → ((v : T) → loads (dumps (serializer v)) ≡ some (serializer v))
      → ((v : T) → deserializer (serializer v) ≡ v)
      → (asked now asked' now' : ℕ) (key : String) (ttl ttl' : Option ℕ) (store : Store) (s s' : S)
        (v : T)
      → held asked store (build_key settings key) ≡ none
      → loader s ≡ (returned v, s')
      → asked' < now + seconds (ttl_or_default settings ttl)
      → let (r, (store', t)) =
          cached_json settings json loader serializer deserializer asked now key ttl (store, s) in
        let (r', (store'', t')) =
          cached_json settings json loader serializer deserializer asked' now' key ttl'
            (store', t) in
        (r ≡ returned v) × (r' ≡ returned v) × (t ≡ s') × (t' ≡ s')
  unfolding cached_json get_json set_json
  cached_json_again on round undo asked now asked' now' key ttl ttl' store s s' v cold load fresh =
      let k = build_key settings key in
      let first = get_lem asked asked k k store (omega arith) in
      let store1 = (get asked k store).1 in
      let n = ttl_or_default settings ttl in
      let store2 = set now k (dumps (serializer v)) n store1 in
      let second = get_lem asked' asked' k k store2 (omega arith) in
      let kept = writes_lem now n asked' k (dumps (serializer v)) k k store1 in
      ground (arith, on, cold, load, fresh, first, second, kept, eq_iff k k, round v, undo v)
