-- ===== src/Timer.antt =====
-- src/timer.c: the timer list. `H` is a handler with its argument; a tick returns the handlers that
-- it starts on new threads.
pub mod Firing
use anp_netskeleton.Base.{
  ℕ, zero, suc, ◌+◌, Bool, true, false, ◌&&◌, List, [], ◌∷◌, ◌++◌, ◌==◌, ltb, if◌then◌else◌, not,
  u32, ℤ, pos, negsuc,
}

-- `t->refcnt--` on an `int`
abbrev pub decrement : ℤ → ℤ
decrement (pos zero) = negsuc 0
decrement (pos (suc n)) = pos n
decrement (negsuc n) = negsuc (suc n)

abbrev pub is_zero : ℤ → Bool
is_zero (pos n) = n == 0
is_zero (negsuc n) = false

module _ {ℓ} (H : Type ℓ) where
  -- `id` stands for the address, `locked` for the timer's own mutex.
  pub record Timer : Type ℓ where
    pub id : ℕ
    pub refcnt : ℤ
    pub expires : ℕ  -- uint32_t
    pub cancelled : Bool
    pub handler : H
    pub locked : Bool

  -- `tick`, the list `timers`, and the address that the next allocation returns.
  pub record Timers : Type ℓ where
    pub tick : ℕ
    pub timers : List Timer
    pub fresh : ℕ

module _ {ℓ} {H : Type ℓ} where
  unfoldable pub timer_new : Timers H → ℤ → ℕ → H → Timer H
  timer_new s refcnt expire handler = record {
    id = s.fresh;
    refcnt = refcnt;
    expires = u32 (s.tick + expire);
    cancelled = false;
    handler = handler;
    locked = false;
  }

  unfoldable pub timer_oneshot : Timers H → ℕ → H → Timers H
  unfolding timer_new
  timer_oneshot s expire handler = record s {
    timers = s.timers ++ (timer_new s (pos 0) expire handler ∷ []);
    fresh = s.fresh + 1;
  }

  -- Returns the timer's address too.
  unfoldable pub timer_add : Timers H → ℕ → H → Timers H × ℕ
  unfolding timer_new
  timer_add s expire handler = (
    record s {
      timers = s.timers ++ (timer_new s (pos 1) expire handler ∷ []);
      fresh = s.fresh + 1;
    },
    s.fresh,
  )

  -- The body of the loop of `timers_tick`, on a timer whose lock is free: the timer, if it stays,
  -- and the handler that is started.
  unfoldable pub timer_visit : ℕ → Timer H → List (Timer H) × List H
  timer_visit tick t =
      let fires : Bool = not t.cancelled && ltb t.expires tick in
      let t' : Timer H = record t { cancelled = if fires then true else t.cancelled } in
      (
        if t'.cancelled && is_zero t'.refcnt then [] else t' ∷ [],
        if fires then t.handler ∷ [] else [],
      )

  unfoldable pub timers_tick : ℕ → List (Timer H) → List (Timer H) × List H
  unfolding timer_visit
  timers_tick tick [] = ([], [])
  timers_tick tick (t ∷ rest) =
      let (kept, started) = timers_tick tick rest in
      if t.locked
      then (t ∷ kept, started)
      else let (stay, fired) = timer_visit tick t in (stay ++ kept, fired ++ started)

  -- One round of `timers_start`.
  unfoldable pub timers_round : Timers H → Timers H × List H
  unfolding timers_tick
  timers_round s =
      let tick' : ℕ = u32 (s.tick + 10) in
      let (kept, started) = timers_tick tick' s.timers in
      (record s { tick = tick'; timers = kept }, started)

  -- The assignments under the timer's lock, at the timer `id`.
  unfoldable pub timer_modify : (Timer H → Timer H) → ℕ → List (Timer H) → List (Timer H)
  timer_modify f id [] = []
  timer_modify f id (t ∷ rest) = if t.id == id then f t ∷ rest else t ∷ timer_modify f id rest

  unfoldable pub timer_release : ℕ → Timers H → Timers H
  unfolding timer_modify
  timer_release id s = record s {
    timers = timer_modify (λ t. record t { refcnt = decrement t.refcnt }) id s.timers;
  }

  unfoldable pub timer_cancel : ℕ → Timers H → Timers H
  unfolding timer_modify
  timer_cancel id s = record s {
    timers =
        timer_modify (λ t. record t { refcnt = decrement t.refcnt; cancelled = true }) id s.timers;
  }

  unfoldable pub timer_get_tick : Timers H → ℕ
  timer_get_tick s = s.tick
