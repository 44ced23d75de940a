-- ===== src/Timer/Firing.antt =====
-- src/timer.c, `timers_tick`: which handlers are started.
use anp_netskeleton.Base.{
  ℕ, ◌≤◌, ◌≡◌, refl, Bool, ◌&&◌, List, [], ◌∷◌, ◌++◌, ltb, leb, if◌then◌else◌, not, arith,
}
use anp_netskeleton.Timer.{Timer, timer_visit, timers_tick}

module _ {ℓ} {H : Type ℓ} where
  -- A timer that is due between two ticks: nothing holds its lock, it is not cancelled, and it expires
  -- at the first tick or after it, and before the second one.
  abbrev pub is_due : ℕ → ℕ → Timer H → Bool
  is_due tick tick' t =
      not t.locked && (not t.cancelled && (leb tick t.expires && ltb t.expires tick'))

  unfoldable pub due : ℕ → ℕ → List (Timer H) → List H
  due tick tick' [] = []
  due tick tick' (t ∷ rest) =
      (if is_due tick tick' t then t.handler ∷ [] else []) ++ due tick tick' rest

  -- A tick starts the handlers of the timers that have expired before it, in the order of the list.
  pub timers_tick-due : (tick : ℕ) (ts : List (Timer H)) → (timers_tick tick ts).1 ≡ due 0 tick ts
  unfolding timers_tick timer_visit due
  timers_tick-due tick [] = refl
  timers_tick-due tick (t ∷ rest) = ground (arith, timers_tick-due tick rest)

  -- No handler is started twice: the tick after a tick starts those of the timers that expired
  -- between the two.
  pub timers_tick-once :
      (tick tick' : ℕ) (ts : List (Timer H))
      → tick ≤ tick'
      → (timers_tick tick' (timers_tick tick ts).0).1 ≡ due tick tick' ts
  unfolding timers_tick timer_visit due
  timers_tick-once tick tick' [] h = refl
  timers_tick-once tick tick' (t ∷ rest) h = ground (arith, timers_tick-once tick tick' rest h)
