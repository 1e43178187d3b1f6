-- ===== src/RateLimit/Tests.antt =====
-- Concrete queues, and one instance of each theorem on the limiter.
use fastapi.Prelude.{
  ℕ, zero, suc, true, false, Option, none, some, is_some, ◌<◌, ◌≡◌, refl, [], ◌∷◌, ◌++◌, arith, ltb,
  length,
}
use fastapi.Prelude.Dict.{empty, put}
use fastapi.RateLimit.Memory.{Attempts, queue_of, check, hit}
use fastapi.Prelude.Int.{ℤ, pos, negsuc, ltb_ℤ}
use fastapi.RateLimit.Redis
use fastapi.RateLimit.Redis.{RedisClient}
use fastapi.RateLimit.Expiry.{hit_expires}
use fastapi.RateLimit.Window.{IsOrdered, is_allowed, live_attempts, check_lem, hit_lem}

-- One attempt that has left a window of ten seconds by the twelfth, and two that have not.
abbrev three : Attempts
three = put "k" (1_000_000 ∷ 5_000_000 ∷ 9_000_000 ∷ []) empty

three-IsOrdered : IsOrdered 12_000_000 (queue_of (three "k"))
three-IsOrdered = ground arith

check_lem_example :
    let (decision, d') = check "k" 3 10 12_000_000 three in
    let live = live_attempts "k" 12_000_000 10 three in
    (is_allowed decision ≡ ltb (length live) 3) × (queue_of (d' "k") ≡ live)
check_lem_example = check_lem "k" 3 10 12_000_000 three three-IsOrdered

hit_lem_example :
    let (decision, d') = hit "k" 3 10 12_000_000 three in
    let live = live_attempts "k" 12_000_000 10 three ++ 12_000_000 ∷ [] in
    (is_allowed decision ≡ ltb (length live) 3)
    × (queue_of (d' "k") ≡ live)
    × IsOrdered 12_000_000 (queue_of (d' "k"))
hit_lem_example = hit_lem "k" 3 10 12_000_000 three three-IsOrdered

-- One counter, if it exists, and its time to live in seconds: a client for the key "k" alone.
abbrev counted_once : Option ℕ → ℕ
counted_once none = 1
counted_once (some n) = suc n

abbrev left_after : ℕ → Option ℕ → Option ℕ × ℤ
left_after n none = (none, negsuc 1)
left_after zero (some count) = (none, negsuc 1)
left_after (suc n) (some count) = (some count, pos (suc n))

abbrev left_of : Option ℕ → ℤ → ℤ
left_of none left = negsuc 0
left_of (some count) left = left

abbrev one_key : RedisClient (Option ℕ × ℤ)
one_key = record {
  get = λ key s. (s.0, s);
  ttl = λ key s. (s.1, s);
  incr_ttl =
      λ key s. ((counted_once s.0, left_of s.0 s.1), (some (counted_once s.0), left_of s.0 s.1));
  expire = λ key n s. left_after n s.0;
  delete = λ key s. (none, negsuc 1);
}

one_key_expires :
    (n : ℕ) (s : Option ℕ × ℤ) → is_some s.0 ≡ true → 0 < n → (left_after n s.0).1 ≡ pos n
one_key_expires n s exists positive = ground (arith, exists, positive)

hit_expires_example :
    ltb_ℤ (one_key.ttl "k" (Redis.hit one_key "k" 3 60 (some 2, negsuc 0)).1).0 (pos 0) ≡ false
hit_expires_example =
    hit_expires one_key (λ key n s. one_key_expires n s) (λ key s. refl) (λ key s. refl) "k" 3 60
      (some 2, negsuc 0) (omega arith)
