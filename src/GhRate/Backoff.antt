-- ===== src/GhRate/Backoff.antt =====
-- The backoff after an answer that is a rate limit.
use agent_city.Prelude.{
  ℕ, zero, suc, ◌⊎◌, ◌+◌, ◌≤◌, ◌<◌, ◌≡◌, min, refl, false, none, ltb, leb, arith, length, inl, inr,
}
use agent_city.GhRate.{
  GhRateLimiter, Answer, limited, call, execute, settle, started, throttled, apply_backoff, delay,
  base_delay, purge,
}

min-cases : (step : ℕ) → (min (step + 1) 3 ≡ 1) ⊎ ((min (step + 1) 3 ≡ 2) ⊎ (min (step + 1) 3 ≡ 3))
min-cases zero = inl refl
min-cases (suc zero) = inr (inl refl)
min-cases (suc (suc n)) = inr (inr (omega arith))

-- Between 24 seconds and 144.
step_delay :
    (step luck : ℕ)
    → luck ≤ 1000
    → (24000 ≤ delay (min (step + 1) 3) luck) × (delay (min (step + 1) 3) luck ≤ 144000)
unfolding delay base_delay
step_delay step luck small = elim (min-cases step) [
  | inl one ↦ rw one (omega (arith, small), omega (arith, small))
  | inr (inl two) ↦ rw two (omega (arith, small), omega (arith, small))
  | inr (inr three) ↦ rw three (omega (arith, small), omega (arith, small))
]

-- Where a call was let through and its answer is a rate limit, every call of the next 24 seconds is
-- refused, starts no process and changes nothing but the count of refusals; the backoff is over after 144 seconds at
-- most; and its step is one higher, up to 3.
pub call-backs_off :
    (now later luck : ℕ) (l : GhRateLimiter) (next later' luck' : ℕ) (answer : Answer)
    → luck ≤ 1000
    → ltb now l.backoff_until ≡ false
    → leb l.max_per_minute (length (purge now l.call_times)) ≡ false
    → next < later + 24000
    → let l' = (call now later luck limited l).0 in
      (call next later' luck' answer l'
        ≡ (record l' { throttled_calls = l'.throttled_calls + 1 }, none, none))
      × (l'.backoff_until ≤ later + 144000)
      × (l'.backoff_step ≡ min (l.backoff_step + 1) 3)
unfolding call execute settle started throttled apply_backoff
call-backs_off now later luck l next later' luck' answer small free room soon =
    let (low, high) = step_delay l.backoff_step luck small in
    (ground (arith, low), ground (arith, high), ground arith)
