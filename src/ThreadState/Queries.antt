-- ===== src/ThreadState/Queries.antt =====
-- The sorted reports on the threads.
use agent_city.Prelude.{
  ℕ, ◌+◌, ◌*◌, String, Bool, true, false, not, ◌&&◌, Option, none, some, List, leb, keep, map,
  length,
}
use agent_city.Prelude.Key.{number_key}
use agent_city.Prelude.Dict.{lookup}
use agent_city.Prelude.Sort.{order_by}
use agent_city.ThreadState.{
  Energy, Thread, Board, ThreadStatus, active, waiting, cooling, archived, is_archived,
}

pub record ThreadSnapshot : Type 0 where
  pub discussion_number : ℕ
  pub title : String
  pub category : String
  pub energy : Energy
  pub status : ThreadStatus
  pub last_human_comment_at : ℕ
  pub last_agent_response_at : ℕ
  pub human_comment_count : ℕ
  pub response_count : ℕ
  pub unresolved : Bool
  pub created_at : ℕ

abbrev pub row_to_snapshot : ℕ × Thread → ThreadSnapshot
row_to_snapshot (n, t) = record {
  discussion_number = n;
  title = t.title;
  category = t.category;
  energy = t.energy;
  status = t.status;
  last_human_comment_at = t.last_human_comment_at;
  last_agent_response_at = t.last_agent_response_at;
  human_comment_count = t.human_comment_count;
  response_count = t.response_count;
  unresolved = t.unresolved;
  created_at = t.created_at;
}

abbrev pub is_answerable : ThreadStatus → Bool
is_answerable active = true
is_answerable waiting = true
is_answerable _ = false

abbrev pub needs_response : ThreadSnapshot → Bool
needs_response s = s.unresolved && is_answerable s.status

abbrev pub is_alive : ThreadSnapshot → Bool
is_alive s = not (is_archived s.status)

unfoldable pub get : ℕ → Board → Option ThreadSnapshot
get n d = elim (lookup n d) [ none ↦ none | some t ↦ some (row_to_snapshot (n, t)) ]

-- a ≥ b
abbrev pub at_least : Energy → Energy → Bool
at_least a b = leb (b.parts * a.whole) (a.parts * b.whole)

-- `ORDER BY energy DESC`
abbrev pub by_energy : ℕ × Thread → ℕ × Thread → Bool
by_energy a b = at_least a.1.energy b.1.energy

-- `ORDER BY consecutive_human_posts DESC`
abbrev pub by_posts : ℕ × Thread → ℕ × Thread → Bool
by_posts a b = leb b.1.consecutive_human_posts a.1.consecutive_human_posts

abbrev pub is_open : ℕ × Thread → Bool
is_open r = r.1.unresolved && not (is_archived r.1.status)

abbrev pub is_live : ℕ × Thread → Bool
is_live r = not (is_archived r.1.status)

-- REPETITION_ESCALATION_COUNT
abbrev pub escalation_count : ℕ
escalation_count = 3

abbrev pub is_repeated : ℕ × Thread → Bool
is_repeated r = leb escalation_count r.1.consecutive_human_posts && not (is_archived r.1.status)

unfoldable pub threads_needing_response : Board → List ThreadSnapshot
threads_needing_response d = map row_to_snapshot (order_by by_energy (keep is_open d))

unfoldable pub active_threads : Board → List ThreadSnapshot
active_threads d = map row_to_snapshot (order_by by_energy (keep is_live d))

unfoldable pub repetition_alerts : Board → List ThreadSnapshot
repetition_alerts d = map row_to_snapshot (order_by by_posts (keep is_repeated d))

abbrev pub same_status : ThreadStatus → ThreadStatus → Bool
same_status active active = true
same_status waiting waiting = true
same_status cooling cooling = true
same_status archived archived = true
same_status _ _ = false

-- The counts of `stats`, with 0 for a status that no thread has.
pub record Stats : Type 0 where
  pub by_status : ThreadStatus → ℕ
  pub total : ℕ
  pub unresolved : ℕ

unfoldable pub count_status : Board → ThreadStatus → ℕ
count_status d s = length (keep (λ r. same_status r.1.status s) d)

unfoldable pub stats : Board → Stats
unfolding count_status
stats d = record {
  by_status = count_status d;
  total =
      count_status d active
      + count_status d waiting
      + count_status d cooling
      + count_status d archived;
  unresolved = length (keep is_open d);
}
