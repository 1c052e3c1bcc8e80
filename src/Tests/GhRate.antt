-- ===== src/Tests/GhRate.antt =====
-- A limiter of two calls a minute.
use agent_city.Prelude.{◌+◌, ◌≤◌, ◌≡◌, refl, min, false, none, [], ◌∷◌, arith, ltb, leb, length}
use agent_city.GhRate.{GhRateLimiter, fresh, succeeded, limited, failed, call, purge}
use agent_city.GhRate.Window.{Run, created, called, recent, Run-recent}
use agent_city.GhRate.Backoff.{call-backs_off}

abbrev l0 : GhRateLimiter
l0 = record {
  max_per_minute = 2;
  call_times = [];
  backoff_until = 0;
  backoff_step = 0;
  total_calls = 0;
  throttled_calls = 0;
}

abbrev l1 : GhRateLimiter
l1 = (call 1000 1200 0 (succeeded "[]") l0).0

abbrev l2 : GhRateLimiter
l2 = (call 2000 2100 500 limited l1).0

run : Run 2 2000 l2 (2000 ∷ 1000 ∷ [])
unfolding call fresh purge
run =
    called 2000 2100 500 limited (called 1000 1200 0 (succeeded "[]") created (omega arith))
      (omega arith)

Run-recent_example : recent 30000 (2000 ∷ 1000 ∷ []) ≤ 2
Run-recent_example = Run-recent run 30000 (omega arith)

free : ltb 2000 l1.backoff_until ≡ false
unfolding call purge
free = refl

room : leb l1.max_per_minute (length (purge 2000 l1.call_times)) ≡ false
unfolding call purge
room = refl

call-backs_off_example :
    (call 20000 20100 0 failed l2
      ≡ (record l2 { throttled_calls = l2.throttled_calls + 1 }, none, none))
    × (l2.backoff_until ≤ 2100 + 144000)
    × (l2.backoff_step ≡ min (l1.backoff_step + 1) 3)
call-backs_off_example =
    call-backs_off 2000 2100 500 l1 20000 20100 0 failed (omega arith) free room (omega arith)
