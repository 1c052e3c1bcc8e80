-- ===== src/Tests/ThreadState.antt =====
-- One discussion on the board.
use agent_city.Prelude.{ℕ, ◌≡◌, true, List, [], ◌∷◌, arith, All, length, some}
use agent_city.Prelude.Key.{number_key}
use agent_city.Prelude.Dict.{lookup}
use agent_city.ThreadState.{Thread, Board, is_archived, record_human_comment}
use agent_city.ThreadState.Bounds.{IsBoard, comment, Step-IsBoard}
use agent_city.ThreadState.Lifetime.{heartbeats, heartbeats-archived}
use agent_city.ThreadState.Schedule.{idle, scheduled, comment-scheduled}
use agent_city.ThreadState.Queries.{
  threads_needing_response, active_threads, repetition_alerts, stats,
}
use agent_city.ThreadState.Reports.{
  Reports, is_unanswered, is_going_on, is_insistent, IsWarmer, IsLonger, board-Reports,
}

abbrev bare : Board
bare = []

abbrev board : Board
board = record_human_comment 1000 7 "ada" "Zones" "general" bare

board-IsBoard : IsBoard board
board-IsBoard = Step-IsBoard (comment 1000 7 "ada" "Zones" "general") tt

-- The first agent answers in the second heartbeat.
abbrev evening : List (List (ℕ × ℕ))
evening =
    []
    ∷ ((2000, 7) ∷ [])
    ∷ []
    ∷ []
    ∷ []
    ∷ []
    ∷ []
    ∷ []
    ∷ []
    ∷ []
    ∷ []
    ∷ []
    ∷ []
    ∷ []
    ∷ []
    ∷ []
    ∷ []
    ∷ []
    ∷ []
    ∷ []
    ∷ []
    ∷ []
    ∷ []
    ∷ []
    ∷ []
    ∷ []
    ∷ []
    ∷ []
    ∷ []
    ∷ []
    ∷ []
    ∷ []
    ∷ []
    ∷ []
    ∷ []
    ∷ []
    ∷ []

heartbeats-archived_example : All (λ r. is_archived r.1.status ≡ true) (heartbeats evening board)
heartbeats-archived_example = heartbeats-archived evening board (omega arith) board-IsBoard

comment-scheduled_example :
    (t : Thread) × (lookup 7 (idle 20 (record_human_comment 1000 7 "ada" "Zones" "general" bare))
      ≡ some t)
    × (t.status ≡ scheduled 20)
comment-scheduled_example = comment-scheduled 20 1000 7 "ada" "Zones" "general" bare

board-Reports_example :
    Reports is_unanswered IsWarmer board (threads_needing_response board)
    × Reports is_going_on IsWarmer board (active_threads board)
    × Reports is_insistent IsLonger board (repetition_alerts board)
    × ((stats board).total ≡ length board)
board-Reports_example = board-Reports board board-IsBoard
