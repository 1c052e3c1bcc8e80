-- ===== src/ThreadState.antt =====
-- city/thread_state.py, the threads: one row for each discussion, with an energy that a human comment
-- fills and each heartbeat lessens. Times are milliseconds. An energy is an exact fraction, so the
-- rounding of floating-point numbers is not modelled.
pub mod Queries
pub mod Reports
pub mod Bounds
pub mod Lifetime
pub mod Schedule
pub mod Purge
use agent_city.Prelude.{
  ℕ, ◌+◌, ◌*◌, String, Bool, true, false, not, ◌&&◌, Option, none, some, List, [], ◌∷◌, ◌++◌, ltb,
  if◌then◌else◌,
}
use agent_city.Prelude.Key.{◌==◌, text_key, number_key}
use agent_city.Prelude.Dict.{Dict, lookup}

pub data ThreadStatus : Type 0 where
  active waiting cooling archived : ThreadStatus

abbrev pub is_archived : ThreadStatus → Bool
is_archived archived = true
is_archived _ = false

abbrev pub is_cooling : ThreadStatus → Bool
is_cooling cooling = true
is_cooling _ = false

-- The number `parts / whole`.
pub record Energy : Type 0 where
  pub parts : ℕ
  pub whole : ℕ

abbrev pub full : Energy
full = record { parts = 1; whole = 1 }

abbrev pub spent : Energy
spent = record { parts = 0; whole = 1 }

-- DECAY_RATE, 0.92
abbrev pub decay : Energy → Energy
decay e = record { parts = e.parts * 92; whole = e.whole * 100 }

-- ARCHIVE_THRESHOLD, 0.05
abbrev pub below_archive : Energy → Bool
below_archive e = ltb (e.parts * 100) (e.whole * 5)

-- COOL_THRESHOLD, 0.3
abbrev pub below_cool : Energy → Bool
below_cool e = ltb (e.parts * 10) (e.whole * 3)

pub record Thread : Type 0 where
  pub title : String
  pub category : String
  pub energy : Energy
  pub status : ThreadStatus
  pub last_human_comment_at : ℕ
  pub last_agent_response_at : ℕ
  pub human_comment_count : ℕ
  pub response_count : ℕ
  pub unresolved : Bool
  pub created_at : ℕ
  pub last_human_author : String
  pub consecutive_human_posts : ℕ

-- The table `thread_state`, by the number of the discussion.
abbrev pub Board : Type 0
Board = Dict ℕ Thread

-- `UPDATE thread_state … WHERE discussion_number = ?`
unfoldable pub update : ℕ → (Thread → Thread) → Board → Board
update n f [] = []
update n f ((m, t) ∷ d) = if m == n then (m, f t) ∷ d else (m, t) ∷ update n f d

unfoldable pub new_thread : ℕ → String → String → String → Thread
new_thread now author title category = record {
  title = title;
  category = category;
  energy = full;
  status = active;
  last_human_comment_at = now;
  last_agent_response_at = 0;
  human_comment_count = 1;
  response_count = 0;
  unresolved = true;
  created_at = now;
  last_human_author = author;
  consecutive_human_posts = 1;
}

unfoldable pub commented : ℕ → String → String → String → Thread → Thread
commented now author title category t = record t {
  energy = full;
  status = active;
  last_human_comment_at = now;
  human_comment_count = t.human_comment_count + 1;
  unresolved = true;
  last_human_author = author;
  consecutive_human_posts =
      if author == t.last_human_author then t.consecutive_human_posts + 1 else 1;
  title = if title == "" then t.title else title;
  category = if category == "" then t.category else category;
}

unfoldable pub record_human_comment : ℕ → ℕ → String → String → String → Board → Board
unfolding new_thread commented update
record_human_comment now n author title category d = elim (lookup n d) [
  | none ↦ d ++ (n, new_thread now author title category) ∷ []
  | some _ ↦ update n (commented now author title category) d
]

unfoldable pub answered : ℕ → Thread → Thread
answered now t = record t {
  status = waiting;
  last_agent_response_at = now;
  response_count = t.response_count + 1;
  unresolved = false;
  consecutive_human_posts = 0;
}

unfoldable pub record_agent_response : ℕ → ℕ → Board → Board
unfolding answered update
record_agent_response now n = update n (answered now)

abbrev pub shut : Thread → Thread
shut t = record t { status = archived; energy = spent; unresolved = false }

unfoldable pub archive_thread : ℕ → Board → Board
unfolding update
archive_thread n = update n shut

pub record DecayStats : Type 0 where
  pub decayed : ℕ
  pub cooled : ℕ
  pub archived_now : ℕ

-- One turn of the loop in `decay_all`, on a row that is not archived.
unfoldable pub decay_row : Thread → Thread
decay_row t =
    if below_archive (decay t.energy)
    then record t { status = archived; energy = spent }
    else if below_cool (decay t.energy) && not (is_cooling t.status)
    then record t { status = cooling; energy = decay t.energy }
    else record t { energy = decay t.energy }

unfoldable pub count_row : Thread → DecayStats → DecayStats
count_row t s =
    if below_archive (decay t.energy)
    then record s { decayed = s.decayed + 1; archived_now = s.archived_now + 1 }
    else if below_cool (decay t.energy) && not (is_cooling t.status)
    then record s { decayed = s.decayed + 1; cooled = s.cooled + 1 }
    else record s { decayed = s.decayed + 1 }

unfoldable pub decay_rows : Board → Board
unfolding decay_row
decay_rows [] = []
decay_rows ((n, t) ∷ d) =
    let rest = decay_rows d in (n, if is_archived t.status then t else decay_row t) ∷ rest

unfoldable pub decay_stats : Board → DecayStats
unfolding count_row
decay_stats [] = record { decayed = 0; cooled = 0; archived_now = 0 }
decay_stats ((n, t) ∷ d) =
    let rest = decay_stats d in if is_archived t.status then rest else count_row t rest

unfoldable pub decay_all : Board → Board × DecayStats
unfolding decay_rows decay_stats
decay_all d = (decay_rows d, decay_stats d)
