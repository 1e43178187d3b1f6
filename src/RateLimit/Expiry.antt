-- ===== src/RateLimit/Expiry.antt =====
-- The counters of the Redis limiter expire.
use fastapi.Prelude.{ℕ, String, ◌≡◌, ◌<◌, true, false, is_some, arith}
use fastapi.Prelude.Int.{pos, ltb_ℤ}
use fastapi.RateLimit.Redis.{RedisClient, hit}

-- Let `expire` set the time to live of a key that exists, where the time is above 0, and let the
-- pipeline leave its key in existence and report the time that the key has left. After a `hit` with
-- a window above 0, whatever it decides, the key has a time to live: no counter stays for ever.
pub hit_expires :
    {S : Type 0} (client : RedisClient S)
    → ((key : String) (n : ℕ) (s : S)
        → is_some (client.get key s).0 ≡ true
        → 0 < n
        → (client.ttl key (client.expire key n s)).0 ≡ pos n)
    → ((key : String) (s : S) → is_some (client.get key (client.incr_ttl key s).1).0 ≡ true)
    → ((key : String) (s : S)
        → (client.ttl key (client.incr_ttl key s).1).0 ≡ (client.incr_ttl key s).0.1)
    → (key : String) (max_attempts window : ℕ) (s : S) → 0 < window
    → ltb_ℤ (client.ttl key (hit client key max_attempts window s).1).0 (pos 0) ≡ false
unfolding hit
hit_expires client expires exists reports key m window s positive =
    let s1 = (client.incr_ttl key s).1 in
    ground (arith, expires key window s1 (exists key s) positive, reports key s)
