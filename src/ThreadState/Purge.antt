-- ===== src/ThreadState/Purge.antt =====
-- `purge_stale`: both tables are cleaned in one call.
use agent_city.Prelude.{ℕ, ◌+◌, ◌-◌, Bool, not, ◌&&◌, ltb, keep, length}
use agent_city.ThreadState.{Thread, Board, is_archived}
use agent_city.CommentLedger.{Ledger, purge_comments}

pub record PurgeStats : Type 0 where
  pub threads_purged : ℕ
  pub comments_purged : ℕ

-- _THREAD_TTL_S and _COMMENT_TTL_S
abbrev pub thread_ttl : ℕ
thread_ttl = 604800000

abbrev pub comment_ttl : ℕ
comment_ttl = 259200000

abbrev pub is_stale : ℕ → ℕ → Thread → Bool
is_stale now ttl t =
    is_archived t.status
    && ltb (t.last_human_comment_at + ttl) now
    && ltb (t.last_agent_response_at + ttl) now

unfoldable pub purge_threads : ℕ → ℕ → Board → Board
purge_threads now ttl d = keep (λ r. not (is_stale now ttl r.1)) d

unfoldable pub purge_stale : ℕ → ℕ → ℕ → Board → Ledger → (Board × Ledger) × PurgeStats
unfolding purge_threads purge_comments
purge_stale now t_ttl c_ttl d l = (
  (purge_threads now t_ttl d, purge_comments now c_ttl l),
  record {
    threads_purged = length d - length (purge_threads now t_ttl d);
    comments_purged = length l - length (purge_comments now c_ttl l);
  },
)
