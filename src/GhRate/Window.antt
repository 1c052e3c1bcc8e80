-- ===== src/GhRate/Window.antt =====
-- No window of a minute sees more processes started than the limit.
use agent_city.Prelude.{
  ℕ, ◌+◌, ◌≤◌, ◌≡◌, refl, ap, ◌∙◌, Option, none, some, List, [], ◌∷◌, ◌++◌, length, leb,
  if◌then◌else◌, arith,
}
use agent_city.GhRate.{
  GhRateLimiter, Answer, succeeded, limited, failed, not_found, timed_out, fresh, purge, window,
  settle, execute, call, stats, started, throttled, apply_backoff,
}

-- How many of the times are at most a minute before `now`.
unfoldable pub recent : ℕ → List ℕ → ℕ
recent now [] = 0
recent now (t ∷ times) = (if leb now (t + window) then 1 else 0) + recent now times

-- The start of a process is written down when there is one.
abbrev pub written_down : Option ℕ → List ℕ → List ℕ
written_down none starts = starts
written_down (some now) starts = now ∷ starts

-- A run up to a time: the limiter, and the times at which it started a process, newest first.
pub data Run (max_per_minute : ℕ) : ℕ → GhRateLimiter → List ℕ → Type 0 where
  created : Run max_per_minute 0 (fresh max_per_minute) []
  called :
      {t : ℕ} {l : GhRateLimiter} {starts : List ℕ} (now later luck : ℕ) (answer : Answer)
      → Run max_per_minute t l starts
      → t ≤ now
      → Run max_per_minute now
          (call now later luck answer l).0
          (written_down (call now later luck answer l).2 starts)
  asked :
      {t : ℕ} {l : GhRateLimiter} {starts : List ℕ} (now : ℕ)
      → Run max_per_minute t l starts
      → t ≤ now
      → Run max_per_minute now (stats now l).0 starts

recent-purge :
    (now t : ℕ) (times : List ℕ) → t ≤ now → recent now (purge t times) ≡ recent now times
unfolding recent purge
recent-purge now t [] le = refl
recent-purge now t (s ∷ times) le = ground (arith, recent-purge now t times le)

recent-append :
    (now t : ℕ) (times : List ℕ)
    → recent now (times ++ t ∷ []) ≡ recent now times + recent now (t ∷ [])
unfolding recent
recent-append now t [] = ground arith
recent-append now t (s ∷ times) = ground (arith, recent-append now t times)

recent-le : (now : ℕ) (times : List ℕ) → recent now times ≤ length times
unfolding recent
recent-le now [] = ground arith
recent-le now (s ∷ times) = ground (arith, recent-le now times)

recent-later : (t now : ℕ) (times : List ℕ) → t ≤ now → recent now times ≤ recent t times
unfolding recent
recent-later t now [] le = ground arith
recent-later t now (s ∷ times) le = ground (arith, recent-later t now times le)

-- The limiter remembers the starts that count, and they are within the limit.
record Knows (max_per_minute t : ℕ) (l : GhRateLimiter) (starts : List ℕ) : Type 0 where
  pub limit : l.max_per_minute ≡ max_per_minute
  pub counts : (now : ℕ) → t ≤ now → recent now l.call_times ≡ recent now starts
  pub within : recent t starts ≤ max_per_minute

settle-times :
    (later luck : ℕ) (answer : Answer) (l : GhRateLimiter)
    → ((settle later luck answer l).0.call_times ≡ l.call_times)
      × ((settle later luck answer l).0.max_per_minute ≡ l.max_per_minute)
unfolding settle apply_backoff
settle-times later luck (succeeded stdout) l = (refl, refl)
settle-times later luck limited l = (refl, refl)
settle-times later luck failed l = (refl, refl)
settle-times later luck not_found l = (refl, refl)
settle-times later luck timed_out l = (refl, refl)

call-Knows :
    (max t now later luck : ℕ) (answer : Answer) (l : GhRateLimiter) (starts : List ℕ)
    → t ≤ now
    → Knows max t l starts
    → Knows max now
        (call now later luck answer l).0
        (written_down (call now later luck answer l).2 starts)
unfolding call execute started throttled recent
call-Knows max t now later luck answer l starts le knows =
    let purged = record l { call_times = purge now l.call_times } in
    let (times, limit) = settle-times later luck answer (started now purged) in
    let l' = (call now later luck answer l).0 in
    record {
      limit = ground (arith, knows.limit, limit);
      counts = λ at at_le. ground (
        arith,
        times,
        ap (recent at) times,
        recent-append at now (purge now l.call_times),
        recent-purge at now l.call_times at_le,
        knows.counts at (omega (arith, le, at_le)),
      );
      within = ground (
        arith,
        knows.limit,
        knows.within,
        recent-later t now starts le,
        recent-le now (purge now l.call_times),
        recent-purge now now l.call_times (omega arith),
        knows.counts now le,
      );
    }

Run-Knows :
    {max t : ℕ} {l : GhRateLimiter} {starts : List ℕ} → Run max t l starts → Knows max t l starts
unfolding stats recent fresh
Run-Knows created = record { limit = refl; counts = λ now le. refl; within = omega arith }
Run-Knows {max} (called {t} {l} {starts} now later luck answer run le) =
    call-Knows max t now later luck answer l starts le (Run-Knows run)
Run-Knows {max} (asked {t} {l} {starts} now run le) =
    let knows = Run-Knows run in
    record {
      limit = knows.limit;
      counts = λ at at_le.
          recent-purge at now l.call_times at_le ∙ knows.counts at (omega (arith, le, at_le));
      within = omega (arith, recent-later t now starts le, knows.within);
    }

-- In a run of calls and queries on one limiter, with whatever answers, whose clock never goes back, at
-- every moment from the last one on at most `max_per_minute` processes were started in the minute
-- before it.
pub Run-recent :
    {max t : ℕ} {l : GhRateLimiter} {starts : List ℕ} (run : Run max t l starts) (at : ℕ)
    → t ≤ at
    → recent at starts ≤ max
Run-recent {max} {t} {l} {starts} run at le =
    omega (arith, recent-later t at starts le, (Run-Knows run).within)
