-- ===== src/Cache/Tests.antt =====
-- A concrete store and loader, and one instance of each theorem on the cache.
use fastapi.Prelude.{ℕ, String, ◌≡◌, ◌+◌, refl, none, some, true, arith, str_eq, if◌then◌else◌}
use fastapi.Exec.{Exec, pure}
use fastapi.Prelude.Dict.{empty}
use fastapi.Db.{seconds}
use text.Mathlib.Text.{starts_with}
use fastapi.Cache.Memory.{Store, set, delete, delete_prefix}
use fastapi.Cache.Entries.{held, until, writes_lem}
use fastapi.Cache.Json.{CacheSettings, JsonText, build_key, cached_json}
use fastapi.Exec.{returned}
use fastapi.Cache.ReadThrough.{cached_json_again}

abbrev store : Store
store = set 0 "app:a" "1" 60 empty

writes_lem_example :
    (held 20 (set 10 "app:a" "2" 60 store) "app:b"
      ≡ (if str_eq "app:a" "app:b" then until 20 (10 + seconds 60) "2" else held 20 store "app:b"))
    × (held 20 (delete "app:a" store) "app:b"
        ≡ (if str_eq "app:a" "app:b" then none else held 20 store "app:b"))
    × (held 20 (delete_prefix "app" store) "app:b"
        ≡ (if starts_with "app:b" "app" then none else held 20 store "app:b"))
writes_lem_example = writes_lem 10 60 20 "app:a" "2" "app" "app:b" store

abbrev settings : CacheSettings
settings = record { enabled = true; key_prefix = "app"; default_ttl_seconds = 60 }

-- Texts are their own JSON.
abbrev json : JsonText String
json = record { dumps = λ j. j; loads = some }

-- A state that counts the runs of the loader.
abbrev loader : Exec ℕ String
loader n = pure "v" (n + 1)

cold : held 10 empty (build_key settings "a") ≡ none
unfolding held
cold = refl

cached_json_again_example :
    let (r, (store', t)) =
      cached_json settings json loader (λ v. v) (λ v. v) 10 11 "a" none (empty, 0) in
    let (r', (store'', t')) =
      cached_json settings json loader (λ v. v) (λ v. v) 20 21 "a" none (store', t) in
    (r ≡ returned "v") × (r' ≡ returned "v") × (t ≡ 1) × (t' ≡ 1)
cached_json_again_example =
    cached_json_again settings json loader (λ v. v) (λ v. v) refl (λ v. refl) (λ v. refl) 10 11 20
      21 "a" none none empty 0 1 "v" cold refl (omega arith)
