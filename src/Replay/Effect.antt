-- ===== src/Replay/Effect.antt =====
-- The calls that a replay makes.
use mathlib.Core.List.{append_assoc, append-nil}
use mathlib.Core.Path.{subst}
use fastapi.Prelude.{
  ℕ, zero, suc, ◌≡◌, ◌<◌, refl, sym, ◌∙◌, ◌⊎◌, inl, inr, ◌+◌, none, some, Bool, true, false, List,
  [], ◌∷◌, ◌++◌, arith, if◌then◌else◌,
}
use fastapi.Prelude.Text.{is_nonempty}
use fastapi.Exec.{Exec, Outcome, returned, raised}
use fastapi.Replay.Channel.{
  Message, Got, get_raised, no_message, delivered, Channel, Sent, published, acknowledged,
}
use fastapi.Replay.Queue.{as_new, replay_round, replay_got, replay_loop, replay_dead_letter_queue}

-- What the work queue is given for a dead letter: the same body and headers, without the count of
-- its retries, and typed as JSON if it had no type.
abbrev pub IsRenewal :
    {Body Headers : Type 0} → Message Body Headers → Message Body Headers → Type 0
IsRenewal old new =
    (new.body ≡ old.body)
    × (new.rest ≡ old.rest)
    × (new.retry_count ≡ none)
    × (new.content_type
        ≡ some (elim old.content_type [
          | none ↦ "application/json"
          | some t ↦ if is_nonempty t then t else "application/json"
        ]))

as_new-IsRenewal : {Body Headers : Type 0} (m : Message Body Headers) → IsRenewal m (as_new m)
unfolding as_new
as_new-IsRenewal m = ground arith

module _ {Body Headers : Type 0} (channel : Channel Body Headers) where
  open channel use {get, publishes, acknowledges}

  -- The calls of the complete rounds from `i` up to `j`: each gets a message, its publication
  -- returns, and then it is acknowledged.
  pub data Rounds : ℕ → ℕ → List (Sent Body Headers) → Type 0 where
    no_round : {i : ℕ} → Rounds i i []
    one_more :
        {i j : ℕ} {sent : List (Sent Body Headers)} (tag : ℕ) (m new : Message Body Headers)
        → get i ≡ delivered tag m
        → IsRenewal m new
        → publishes i ≡ true
        → acknowledges i ≡ true
        → Rounds (i + 1) j sent
        → Rounds i j (published new ∷ acknowledged tag ∷ sent)

  -- The calls of the round `j` up to the one that raises.
  pub data Interrupted (j : ℕ) : List (Sent Body Headers) → Type 0 where
    at_get : get j ≡ get_raised → Interrupted j []
    at_publish :
        (tag : ℕ) (m new : Message Body Headers)
        → get j ≡ delivered tag m
        → IsRenewal m new
        → publishes j ≡ false
        → Interrupted j (published new ∷ [])
    at_acknowledge :
        (tag : ℕ) (m new : Message Body Headers)
        → get j ≡ delivered tag m
        → IsRenewal m new
        → publishes j ≡ true
        → acknowledges j ≡ false
        → Interrupted j (published new ∷ acknowledged tag ∷ [])

  -- What the rounds from `i` up to at most `stop` end in, and the calls they add to the log.
  abbrev pub Replays :
      ℕ → ℕ → List (Sent Body Headers) → Outcome ℕ × List (Sent Body Headers) → Type 0
  Replays i stop log (returned n, log') =
      (sent : List (Sent Body Headers)) × (Rounds i n sent
        × (log' ≡ log ++ sent)
        × ((n ≡ stop) ⊎ ((n < stop) × (get n ≡ no_message))))
  Replays i stop log (raised _, log') =
      (j : ℕ) × ((sent tail : List (Sent Body Headers)) × ((j < stop)
          × Rounds i j sent
          × Interrupted j tail
          × (log' ≡ log ++ (sent ++ tail))))

  two_calls :
      (log rest : List (Sent Body Headers)) (a b : Sent Body Headers)
      → ((log ++ a ∷ []) ++ b ∷ []) ++ rest ≡ log ++ a ∷ b ∷ rest
  two_calls log rest a b =
      append_assoc (log ++ a ∷ []) (b ∷ []) rest ∙ append_assoc log (a ∷ []) (b ∷ rest)

  Replays-one_more :
      (i stop tag : ℕ) (m : Message Body Headers) (log : List (Sent Body Headers))
      (o : Outcome ℕ × List (Sent Body Headers))
      → get i ≡ delivered tag m
      → publishes i ≡ true
      → acknowledges i ≡ true
      → Replays (i + 1) stop ((log ++ published (as_new m) ∷ []) ++ acknowledged tag ∷ []) o
      → Replays i stop log o
  Replays-one_more i stop tag m log (returned n, log') g p a (sent, (rounds, h, ends)) = (
    _,
    (
      one_more tag m (as_new m) g (as_new-IsRenewal m) p a rounds,
      h ∙ two_calls log sent (published (as_new m)) (acknowledged tag),
      ends,
    ),
  )
  Replays-one_more i stop tag m log (raised _, log') g p a
        (j, (sent, tail, (less, rounds, broken, h))) =
      (
        j,
        (
          _,
          tail,
          (
            less,
            one_more tag m (as_new m) g (as_new-IsRenewal m) p a rounds,
            broken,
            h ∙ two_calls log (sent ++ tail) (published (as_new m)) (acknowledged tag),
          ),
        ),
      )

  Replays-round :
      (i stop tag : ℕ) (m : Message Body Headers) (rest : Exec (List (Sent Body Headers)) ℕ)
      → i < stop
      → ((log : List (Sent Body Headers)) → Replays (i + 1) stop log (rest log))
      → (log : List (Sent Body Headers)) → get i ≡ delivered tag m
      → (p a : Bool) → publishes i ≡ p
      → acknowledges i ≡ a
      → Replays i stop log (replay_round channel p a tag m rest log)
  Replays-round i stop tag m rest less later log g false a p k = (
    i,
    (
      [],
      published (as_new m) ∷ [],
      (less, no_round, at_publish tag m (as_new m) g (as_new-IsRenewal m) p, refl),
    ),
  )
  Replays-round i stop tag m rest less later log g true false p k = (
    i,
    (
      [],
      published (as_new m) ∷ acknowledged tag ∷ [],
      (
        less,
        no_round,
        at_acknowledge tag m (as_new m) g (as_new-IsRenewal m) p k,
        append_assoc log (published (as_new m) ∷ []) (acknowledged tag ∷ []),
      ),
    ),
  )
  Replays-round i stop tag m rest less later log g true true p k =
      Replays-one_more i stop tag m log
        (rest ((log ++ published (as_new m) ∷ []) ++ acknowledged tag ∷ [])) g p k
        (later ((log ++ published (as_new m) ∷ []) ++ acknowledged tag ∷ []))

  Replays-got :
      (i stop : ℕ) (rest : Exec (List (Sent Body Headers)) ℕ)
      → i < stop
      → ((log : List (Sent Body Headers)) → Replays (i + 1) stop log (rest log))
      → (log : List (Sent Body Headers)) (g : Got Body Headers) → get i ≡ g
      → Replays i stop log (replay_got channel i rest g log)
  Replays-got i stop rest less later log get_raised g =
      (i, ([], [], (less, no_round, at_get g, sym (append-nil log))))
  Replays-got i stop rest less later log no_message g =
      ([], (no_round, sym (append-nil log), inr (less, g)))
  Replays-got i stop rest less later log (delivered tag m) g =
      Replays-round i stop tag m rest less later log g (publishes i) (acknowledges i) refl refl

  Replays-loop :
      (left i : ℕ) (log : List (Sent Body Headers))
      → Replays i (i + left) log (replay_loop channel left i log)
  unfolding replay_loop
  Replays-loop zero i log = ([], (no_round, sym (append-nil log), inl (omega arith)))
  Replays-loop (suc left) i log =
      Replays-got i (i + suc left) (replay_loop channel left (i + 1)) (omega arith)
        (λ l.
          subst (λ k. Replays (i + 1) k l (replay_loop channel left (i + 1) l)) (omega arith)
            (Replays-loop left (i + 1) l))
        log (get i) refl

  -- A replay makes its calls round by round, whatever the broker answers: it gets a message,
  -- publishes it renewed to the work queue, and only after that publication has returned
  -- acknowledges it. If it returns `n`, it made `n` such rounds, and `n` is the limit, or below
  -- it and there was no further message; if it raises, complete rounds, fewer than the limit, are
  -- followed by one round up to the call that raised.
  pub replay_dead_letter_queue_outcome :
      (limit : ℕ) (log : List (Sent Body Headers))
      → Replays 0 limit log (replay_dead_letter_queue channel limit log)
  unfolding replay_dead_letter_queue
  replay_dead_letter_queue_outcome limit log =
      subst (λ k. Replays 0 k log (replay_loop channel limit 0 log)) (omega arith)
        (Replays-loop limit 0 log)
