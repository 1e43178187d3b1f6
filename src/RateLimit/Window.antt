-- ===== src/RateLimit/Window.antt =====
-- The limiter against a count of all the attempts of the window.
use mathlib.Core.Path.{subst}
use fastapi.Prelude.{
  is_some, true, ℕ, String, ◌≡◌, ◌≤◌, ◌+◌, refl, sym, ap, ◌∙◌, Option, none, some, Bool, false,
  List, [], ◌∷◌, ◌++◌, arith, leb, ltb, length, filter, All, eq_iff,
}
use fastapi.Db.{seconds}
use fastapi.RateLimit.Memory.{
  Attempts, RateLimitDecision, queue_of, drop_old, keep_queue, pruned, decide, check, hit,
}

-- Every time is at most the times after it, and at most `now`.
abbrev pub IsOrdered : ℕ → List ℕ → Type 0
IsOrdered now [] = Unit
IsOrdered now (t ∷ ts) = All (λ u. t ≤ u) ts × (t ≤ now) × IsOrdered now ts

-- An attempt counts until the window has passed.
abbrev pub in_window : ℕ → ℕ → ℕ → Bool
in_window now window t = ltb now (t + seconds window)

filter-All :
    (now window t : ℕ) (ts : List ℕ)
    → leb (t + seconds window) now ≡ false
    → All (λ u. t ≤ u) ts
    → filter (in_window now window) ts ≡ ts
unfolding filter
filter-All now window t [] h o = refl
filter-All now window t (u ∷ us) h o = ground (arith, filter-All now window t us h o.1)

pub drop_old_lem :
    (now window : ℕ) (ts : List ℕ)
    → IsOrdered now ts
    → drop_old now window ts ≡ filter (in_window now window) ts
unfolding drop_old filter
drop_old_lem now window [] o = refl
drop_old_lem now window (t ∷ ts) o =
    ground (arith, drop_old_lem now window ts o.2, filter-All now window t ts)

pub IsOrdered-later :
    (now later : ℕ) (ts : List ℕ) → now ≤ later → IsOrdered now ts → IsOrdered later ts
IsOrdered-later now later [] h o = tt
IsOrdered-later now later (t ∷ ts) h o =
    (o.0, omega (arith, h, o.1), IsOrdered-later now later ts h o.2)

All-snoc :
    (t now : ℕ) (ts : List ℕ) → All (λ u. t ≤ u) ts → t ≤ now → All (λ u. t ≤ u) (ts ++ now ∷ [])
All-snoc t now [] h le = (le, tt)
All-snoc t now (u ∷ us) h le = (h.0, All-snoc t now us h.1 le)

IsOrdered-snoc : (now : ℕ) (ts : List ℕ) → IsOrdered now ts → IsOrdered now (ts ++ now ∷ [])
IsOrdered-snoc now [] o = (tt, omega arith, tt)
IsOrdered-snoc now (t ∷ ts) o = (All-snoc t now ts o.0 o.1, o.1, IsOrdered-snoc now ts o.2)

IsOrdered-drop_old :
    (now window : ℕ) (ts : List ℕ) → IsOrdered now ts → IsOrdered now (drop_old now window ts)
unfolding drop_old
IsOrdered-drop_old now window [] o = tt
IsOrdered-drop_old now window (t ∷ ts) o = ground (arith, IsOrdered-drop_old now window ts o.2)

-- The attempts of a key that count at a time.
abbrev pub live_attempts : String → ℕ → ℕ → Attempts → List ℕ
live_attempts key now window d = filter (in_window now window) (queue_of (d key))

abbrev pub is_allowed : Option RateLimitDecision → Bool
is_allowed none = false
is_allowed (some r) = r.allowed

decide-allowed :
    (now m window : ℕ) (ts : List ℕ) → is_allowed (decide now m window ts) ≡ ltb (length ts) m
unfolding decide
decide-allowed now m window [] = ground arith
decide-allowed now m window (t ∷ ts) = ground arith

queue_of-keep_queue :
    (key : String) (ts : List ℕ) (d : Attempts) → queue_of (keep_queue key ts d key) ≡ ts
queue_of-keep_queue key [] d = ground (arith, eq_iff key key)
queue_of-keep_queue key (t ∷ ts) d = ground (arith, eq_iff key key)

-- Where the queue of the key is in order and not of the future: `check` allows exactly when fewer
-- than `max_attempts` attempts of the key are in the window, and leaves in the queue exactly those
-- attempts.
pub check_lem :
    (key : String) (max_attempts window now : ℕ) (d : Attempts)
    → IsOrdered now (queue_of (d key))
    → let (decision, d') = check key max_attempts window now d in
      let live = live_attempts key now window d in
      (is_allowed decision ≡ ltb (length live) max_attempts) × (queue_of (d' key) ≡ live)
unfolding check
check_lem key m window now d o =
    let step = drop_old_lem now window (queue_of (d key)) o in
    let ts = pruned key now window d in
    (
      decide-allowed now m window ts ∙ ap (λ l. ltb (length l) m) step,
      queue_of-keep_queue key ts d ∙ step,
    )

pub check-IsOrdered :
    (key : String) (max_attempts window now : ℕ) (d : Attempts)
    → IsOrdered now (queue_of (d key))
    → IsOrdered now (queue_of ((check key max_attempts window now d).1 key))
unfolding check
check-IsOrdered key m window now d o =
    subst (IsOrdered now) (sym (queue_of-keep_queue key (pruned key now window d) d))
      (IsOrdered-drop_old now window (queue_of (d key)) o)

-- Where the queue of the key is in order and not of the future: `hit` adds the attempt to those of
-- the window, allows exactly when with it there are fewer than `max_attempts`, and leaves the queue
-- in order.
pub hit_lem :
    (key : String) (max_attempts window now : ℕ) (d : Attempts)
    → IsOrdered now (queue_of (d key))
    → let (decision, d') = hit key max_attempts window now d in
      let live = live_attempts key now window d ++ now ∷ [] in
      (is_allowed decision ≡ ltb (length live) max_attempts)
      × (queue_of (d' key) ≡ live)
      × IsOrdered now (queue_of (d' key))
unfolding hit
hit_lem key m window now d o =
    let step = drop_old_lem now window (queue_of (d key)) o in
    let ts = pruned key now window d in
    let order = IsOrdered-snoc now ts (IsOrdered-drop_old now window (queue_of (d key)) o) in
    (
      decide-allowed now m window (ts ++ now ∷ []) ∙ ap (λ l. ltb (length (l ++ now ∷ [])) m) step,
      ground (arith, eq_iff key key, step),
      ground (arith, eq_iff key key, order),
    )

decide-is_some :
    (now m window last : ℕ) (ts : List ℕ) → is_some (decide now m window (ts ++ last ∷ [])) ≡ true
unfolding decide
decide-is_some now m window last [] = ground arith
decide-is_some now m window last (t ∷ ts) = ground arith

-- A hit has an attempt to tell the delay from.
pub hit-is_some :
    (key : String) (max_attempts window now : ℕ) (d : Attempts)
    → is_some (hit key max_attempts window now d).0 ≡ true
unfolding hit
hit-is_some key m window now d = decide-is_some now m window now (pruned key now window d)
