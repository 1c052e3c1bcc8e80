-- ===== src/GhRate.antt =====
-- city/gh_rate.py: the throttle of the calls of `gh`. Times are milliseconds of the monotonic clock, a
-- frequency is in thousandths of a hertz, and `luck` is what random.random() gives, in thousandths.
pub mod Window
pub mod Backoff
use agent_city.Prelude.{
  ℕ, ◌+◌, ◌-◌, ◌*◌, ◌/◌, ◌%◌, ◌^◌, min, String, Bool, true, false, not, ◌||◌, Option, none, some,
  List, [], ◌∷◌, ◌++◌, length, ltb, leb, eqb, if◌then◌else◌,
}

abbrev pub window : ℕ
window = 60000

abbrev pub gajendra_check_interval : ℕ
gajendra_check_interval = 10

pub record GhRateLimiter : Type 0 where
  pub max_per_minute : ℕ
  pub call_times : List ℕ
  pub backoff_until : ℕ
  pub backoff_step : ℕ
  pub total_calls : ℕ
  pub throttled_calls : ℕ

unfoldable pub fresh : ℕ → GhRateLimiter
fresh max_per_minute = record {
  max_per_minute = max_per_minute;
  call_times = [];
  backoff_until = 0;
  backoff_step = 0;
  total_calls = 0;
  throttled_calls = 0;
}

-- What the process comes to: its output; an exit code with the words of a rate limit on stderr, or with
-- others; no `gh`; or the timeout.
pub data Answer : Type 0 where
  succeeded : String → Answer
  limited failed not_found timed_out : Answer

-- `while … < now - WINDOW_SECONDS: popleft()`
unfoldable pub purge : ℕ → List ℕ → List ℕ
purge now [] = []
purge now (t ∷ times) =
    let rest = purge now times in if ltb (t + window) now then rest else t ∷ times

-- 30, 60 and 120 seconds.
unfoldable pub base_delay : ℕ → ℕ
base_delay step = 30 * 2 ^ (step - 1)

-- The base less a fifth, and as much of two fifths as luck gives.
unfoldable pub delay : ℕ → ℕ → ℕ
unfolding base_delay
delay step luck = base_delay step * 800 + base_delay step * luck * 2 / 5

-- `now` is the clock when the answer is there.
unfoldable pub apply_backoff : ℕ → ℕ → GhRateLimiter → GhRateLimiter
unfolding delay
apply_backoff now luck l =
    let step = min (l.backoff_step + 1) 3 in
    record l { backoff_step = step; backoff_until = now + delay step luck }

-- What follows the process.
unfoldable pub settle : ℕ → ℕ → Answer → GhRateLimiter → GhRateLimiter × Option String
unfolding apply_backoff
settle later luck (succeeded stdout) l = (record l { backoff_step = 0 }, some stdout)
settle later luck limited l = (apply_backoff later luck l, none)
settle later luck failed l = (l, none)
settle later luck not_found l = (l, none)
settle later luck timed_out l = (l, none)

pub throttled : GhRateLimiter → GhRateLimiter
throttled l = record l { throttled_calls = l.throttled_calls + 1 }

pub started : ℕ → GhRateLimiter → GhRateLimiter
started now l = record l { call_times = l.call_times ++ now ∷ []; total_calls = l.total_calls + 1 }

-- `subprocess.run`, and what follows it: with the time at which the process was started.
unfoldable pub execute :
    ℕ → ℕ → ℕ → Answer → GhRateLimiter → GhRateLimiter × Option String × Option ℕ
unfolding settle
execute now later luck answer l =
    let after = settle later luck answer l in (after.0, after.1, some now)

-- A call at `now`, whose process would come to `answer` by the time `later`: the limiter, what the call
-- returns, and when it started a process, if it did.
unfoldable pub call : ℕ → ℕ → ℕ → Answer → GhRateLimiter → GhRateLimiter × Option String × Option ℕ
unfolding execute throttled started
call now later luck answer l =
    let purged = record l { call_times = purge now l.call_times } in
    if ltb now l.backoff_until
    then (throttled l, none, none)
    else if leb l.max_per_minute (length purged.call_times)
    then (throttled purged, none, none)
    else execute now later luck answer (started now purged)

unfoldable pub should_check_prs : ℕ → ℕ → Bool
should_check_prs heartbeat frequency =
    if ltb frequency 2000 then true else eqb (heartbeat % gajendra_check_interval) 0

-- The limiter with its window purged, and what is reported of it.
pub record Stats : Type 0 where
  pub total_calls : ℕ
  pub throttled_calls : ℕ
  pub calls_in_window : ℕ
  pub max_per_minute : ℕ
  pub backoff_active : Bool
  pub backoff_step : ℕ

unfoldable pub stats : ℕ → GhRateLimiter → GhRateLimiter × Stats
stats now l =
    let times = purge now l.call_times in
    (
      record l { call_times = times },
      record {
        total_calls = l.total_calls;
        throttled_calls = l.throttled_calls;
        calls_in_window = length times;
        max_per_minute = l.max_per_minute;
        backoff_active = ltb now l.backoff_until;
        backoff_step = l.backoff_step;
      },
    )
