-- ===== src/Council/Election.antt =====
-- city/council.py: `run_election`. Python's sort is stable, and so is the insertion sort here.
pub mod Ranking
pub mod Outcome
use agent_city.Prelude.{
  ℕ, suc, ◌*◌, ◌+◌, String, Bool, true, false, ◌&&◌, ◌||◌, Option, none, some, List, [], ◌∷◌, ltb,
  eqb, keep, take, if◌then◌else◌,
}
use agent_city.Prelude.Dict.{Dict, lookup}
use agent_city.Prelude.Key.{number_key}
use agent_city.Prelude.Int.{ℤ, pos, pos_part}
use agent_city.Prelude.Texts.{text_le}
use agent_city.Council.{Council, council_seats}

-- A rank score is counted in units of 1/21600: one of prana is one of score where none is given.
pub record Candidate : Type 0 where
  pub name : String
  pub prana : ℤ
  pub rank_score : Option ℕ
  pub guardian : String

pub record Ranked : Type 0 where
  pub name : String
  pub prana : ℤ
  pub guardian : String
  pub rank : ℕ

pub record ElectionResult : Type 0 where
  pub heartbeat : ℕ
  pub elected_mayor : Option String
  pub council_seats : Dict ℕ String
  pub candidates_ranked : List Ranked

abbrev pub is_eligible : Candidate → Bool
is_eligible c = ltb 0 (pos_part c.prana)

abbrev pub score : Candidate → ℕ
score c = elim c.rank_score [ none ↦ pos_part c.prana | some s ↦ s ]

-- The order of the keys `(-score, name)`.
unfoldable pub ranks_before : Candidate → Candidate → Bool
ranks_before a b = ltb (score b) (score a) || (eqb (score a) (score b) && text_le a.name b.name)

pub place : Candidate → List Candidate → List Candidate
place c [] = c ∷ []
place c (d ∷ ds) = let rest = place c ds in if ranks_before c d then c ∷ d ∷ ds else d ∷ rest

pub sort : List Candidate → List Candidate
unfolding place
sort [] = []
sort (c ∷ cs) = place c (sort cs)

-- The candidates that may be seated, best first.
pub ranking : List Candidate → List Candidate
unfolding sort
ranking candidates = sort (keep is_eligible candidates)

pub seat_from : ℕ → List Candidate → Dict ℕ String
seat_from i [] = []
seat_from i (c ∷ cs) = (i, c.name) ∷ seat_from (i + 1) cs

rank_from : ℕ → List Candidate → List Ranked
rank_from i [] = []
rank_from i (c ∷ cs) =
    record { name = c.name; prana = c.prana; guardian = c.guardian; rank = i }
    ∷ rank_from (i + 1) cs

unfoldable pub run_election : List Candidate → ℕ → Council → Council × ElectionResult
unfolding ranking seat_from rank_from
run_election candidates heartbeat_count c =
    let eligible = ranking candidates in
    let new_seats = seat_from 0 (take council_seats eligible) in
    let new_mayor = lookup 0 new_seats in
    (
      record c {
        seats = new_seats;
        elected_mayor = new_mayor;
        last_election_heartbeat = pos heartbeat_count;
      },
      record {
        heartbeat = heartbeat_count;
        elected_mayor = new_mayor;
        council_seats = new_seats;
        candidates_ranked = rank_from 0 (take (council_seats * 2) eligible);
      },
    )
