-- ===== src/Tests/Council.antt =====
-- A small council: an election, a proposal, two votes, a tally.
use mathlib.Core.List.{Perm, Permᴰ, Nodup, Nodup-cons, Nodup-nil, mem-cons, not-mem-nil}
use mathlib.Core.Logic.Or
use mathlib.Core.HLevel.{⊥_prop}
use agent_city.Prelude.{
  ℕ, Ordered, ◌+◌, ◌*◌, ◌<◌, ◌≤◌, ◌≡◌, ◌↔◌, refl, String, true, false, none, some, List, [], ◌∷◌,
  ◌++◌, arith, eq_iff, keep, length, min, All, leb, ◌&&◌, if◌then◌else◌,
}
use agent_city.Prelude.Dict.{lookup, insert}
use agent_city.Prelude.Key.{number_key, ◌==◌, text_key}
use agent_city.Prelude.Int.{pos}
use agent_city.Prelude.Json.{Json}
use agent_city.Prelude.Texts.{zero_padded, text_le, decimal, parse_int}
use agent_city.Council.{
  Council, Proposal, marketplace, still_open, passed, rejected, voted_yes, voted_no, fresh,
  get_proposal, holds_seat, is_member, is_mayor, threshold, election_due,
}
use agent_city.Council.Election.{Candidate, ranking, run_election, ranks_before}
use agent_city.Council.Election.Ranking.{names}
use agent_city.Council.Election.Outcome.{
  name_at, has_prana, Outranks, is_empty, run_election_seats, run_election_comm,
  election_due-run_election,
}
use agent_city.Council.Proposals.{
  Router, Request, Ballot, TallyData, propose, vote, tally, has_voted, count_votes, weight,
  new_proposal, decide_tally, admits, is_signed, with_vote, proposal_id,
}
use agent_city.Council.Proposals.Fates.{is_some}
use agent_city.Council.Proposals.Tally.{cast_for, tally_decides_by_weight}
use agent_city.Council.Ballots.{vote_recorded_iff, propose_accepted_iff}
use agent_city.Council.Steps.{elect, submit, cast, count, Reach, here, next}
use agent_city.Council.Steps.Valid.{IsValid, Reach-IsValid}
use agent_city.Council.Steps.Fate.{Follows, Step-Follows}
use agent_city.Council.Disk.{Disk, absent, Saved, to_dict, restore_from_dict, auto_save, load}
use agent_city.Council.Disk.RoundTrip.{IsKeyed, restore-to_dict}
use agent_city.Council.Disk.Recovery.{saves, damage, load_after_damage}

-- What a run by evaluation opens.
program : Unit {0}
unfolding lookup insert zero_padded text_le holds_seat is_member is_mayor threshold ranks_before
    run_election keep propose vote tally has_voted count_votes weight new_proposal decide_tally
    admits is_signed proposal_id get_proposal cast_for decimal parse_int
program = tt

abbrev ada : Candidate
ada = record { name = "ada"; prana = pos 13700; rank_score = none; guardian = "vyasa" }

abbrev bob : Candidate
bob = record { name = "bob"; prana = pos 9000; rank_score = none; guardian = "" }

abbrev cyd : Candidate
cyd = record { name = "cyd"; prana = pos 0; rank_score = none; guardian = "" }

abbrev elected : Council
elected = (run_election (bob ∷ ada ∷ cyd ∷ []) 7 fresh).0

abbrev route : Router
route title = none

abbrev request : Request
request = record {
  title = "lower the commission";
  description = "";
  proposer = "ada";
  proposal_type = marketplace;
  action = ("type", Json.text "set_commission") ∷ ("rate", Json.number (pos 4)) ∷ [];
  timestamp = 900;
  heartbeat = 8;
}

abbrev proposed : Council
proposed = (propose route request elected).0

abbrev ballot : Ballot
ballot = record {
  proposal_id = "GOV-0001";
  voter = "ada";
  choice = voted_yes;
  prana_weight = 100;
  signature = none;
}

abbrev ballot_against : Ballot
ballot_against = record ballot { voter = "bob"; choice = voted_no; prana_weight = 299 }

abbrev voted : Council
voted = (vote none ballot_against (vote none ballot proposed).0).0

abbrev first : Proposal
first = new_proposal route 1 request

abbrev first_voted : Proposal
first_voted = with_vote ballot_against (with_vote ballot first)

abbrev seal : TallyData → String
seal data_ = "sha256"

mayor_is_ada : elected.elected_mayor ≡ some "ada"
unfolding program
mayor_is_ada = refl

proposed-first : get_proposal proposed "GOV-0001" ≡ some first
unfolding program
proposed-first = refl

voted_first : get_proposal voted "GOV-0001" ≡ some first_voted
unfolding program
voted_first = refl

-- 300 for, with the mayor's vote three times, and 299 against.
tally_passes : (tally seal "GOV-0001" voted).1 ≡ some (decide_tally seal first_voted (300, 299))
unfolding program
tally_passes = refl

reached : Reach fresh voted
reached =
    next
      (next (next (next here (elect (bob ∷ ada ∷ cyd ∷ []) 7)) (submit route request))
        (cast none ballot))
      (cast none ballot_against)

Reach-IsValid_example : IsValid voted
Reach-IsValid_example = Reach-IsValid reached

Step-Follows_example :
    (p' : Proposal) × (get_proposal (tally seal "GOV-0001" voted).0 "GOV-0001" ≡ some p')
    × Follows first_voted p'
Step-Follows_example =
    Step-Follows "GOV-0001" first_voted (Reach-IsValid reached) (count seal "GOV-0001") voted_first

tally_decides_by_weight_example :
    (p' : Proposal) × ((tally seal "GOV-0001" voted).1 ≡ some p')
    × (get_proposal (tally seal "GOV-0001" voted).0 "GOV-0001" ≡ some p')
    × ((p'.status ≡ passed) ↔ (
        threshold first_voted
          * (cast_for voted_yes voted first_voted.votes + cast_for voted_no voted first_voted.votes)
        < 100 * cast_for voted_yes voted first_voted.votes))
    × ((p'.status ≡ rejected) ↔ (
        100 * cast_for voted_yes voted first_voted.votes
        ≤ threshold first_voted
          * (cast_for voted_yes voted first_voted.votes
              + cast_for voted_no voted first_voted.votes)))
    × (p'.votes ≡ first_voted.votes)
    × ((other : String)
        → ("GOV-0001" == other) ≡ false
        → get_proposal (tally seal "GOV-0001" voted).0 other ≡ get_proposal voted other)
unfolding program
tally_decides_by_weight_example =
    tally_decides_by_weight seal "GOV-0001" voted first_voted voted_first refl (omega arith)

vote_recorded_iff_example :
    (((vote none ballot proposed).1 ≡ true) ↔ (
      (first.status ≡ still_open)
      × (is_member proposed "ada" ≡ true)
      × (has_voted "ada" first.votes ≡ false)
      × (is_signed none ballot ≡ true)))
    × ((vote none ballot proposed).1 ≡ true
        → get_proposal (vote none ballot proposed).0 "GOV-0001"
          ≡ some (record first {
            votes =
                first.votes
                ++ record { voter = "ada"; choice = voted_yes; prana_weight = ballot.prana_weight }
                  ∷ [];
            result_hash = "";
          }))
    × ((other : String)
        → (ballot.proposal_id == other) ≡ false
        → get_proposal (vote none ballot proposed).0 other ≡ get_proposal proposed other)
    × ((vote none ballot proposed).1 ≡ false → (vote none ballot proposed).0 ≡ proposed)
unfolding program
vote_recorded_iff_example = vote_recorded_iff none ballot proposed first proposed-first

propose_accepted_iff_example :
    (((propose route request elected).1
        ≡ some (new_proposal route elected.next_proposal_num request))
      ↔ ((is_member elected "ada" ≡ true)
          × (marketplace ≡ marketplace → is_mayor elected "ada" ≡ true)))
    × ((propose route request elected).1 ≡ none → (propose route request elected).0 ≡ elected)
    × ((other : String)
        → get_proposal (propose route request elected).0 other ≡ (
            if is_some (propose route request elected).1
              && (proposal_id elected.next_proposal_num == other)
            then (propose route request elected).1
            else get_proposal elected other))
propose_accepted_iff_example = propose_accepted_iff route request elected

run_election_seats_example :
    (winners : List Candidate) × (losers : List Candidate) × Perm
      (winners ++ losers)
      (keep has_prana (bob ∷ ada ∷ cyd ∷ []))
    × ((seat : ℕ)
        → lookup seat (run_election (bob ∷ ada ∷ cyd ∷ []) 7 fresh).0.seats ≡ name_at seat winners)
    × (length winners ≡ min 6 (length winners + length losers))
    × Ordered Outranks winners
    × All (λ w. All (Outranks w) losers) winners
    × ((run_election (bob ∷ ada ∷ cyd ∷ []) 7 fresh).0.elected_mayor ≡ name_at 0 winners)
    × ((run_election (bob ∷ ada ∷ cyd ∷ []) 7 fresh).0.last_election_heartbeat ≡ pos 7)
run_election_seats_example = run_election_seats (bob ∷ ada ∷ cyd ∷ []) 7 fresh

names-Nodup : Nodup (names (bob ∷ ada ∷ []))
names-Nodup = Nodup-cons.1 (
  λ m. Or.elim ⊥_prop (mem-cons.0 m) (λ e. ground (arith, eq_iff "bob" "ada")) not-mem-nil,
  Nodup-cons.1 (not-mem-nil, Nodup-nil),
)

run_election_comm_example :
    run_election (bob ∷ ada ∷ []) 7 fresh ≡ run_election (ada ∷ bob ∷ []) 7 fresh
run_election_comm_example =
    run_election_comm (bob ∷ ada ∷ []) (ada ∷ bob ∷ []) 7 fresh ∣ Permᴰ.swap refl refl ∣₁
      names-Nodup

election_due-run_election_example :
    election_due (run_election (bob ∷ []) 7 fresh).0 115
    ≡ (if is_empty (ranking (bob ∷ [])) then true else leb 115 115)
election_due-run_election_example = election_due-run_election (bob ∷ []) 7 115 fresh

voted-IsKeyed : IsKeyed voted
unfolding program
voted-IsKeyed = record { seats = ground arith; proposals = ((tt), tt) }

restore-to_dict_example : restore_from_dict (to_dict voted) fresh ≡ (voted, true)
restore-to_dict_example = restore-to_dict voted fresh voted-IsKeyed

abbrev blank : Disk
blank = record {
  primary = absent;
  bak = absent;
  bak_1 = absent;
  bak_2 = absent;
  bak_3 = absent;
  bak_4 = absent;
}

load_after_damage_example :
    load (damage 2 (saves (elected ∷ proposed ∷ []) (auto_save voted blank))) ≡ voted
load_after_damage_example =
    load_after_damage voted (elected ∷ proposed ∷ []) blank voted-IsKeyed (omega arith)

-- A state file with one seat, whose one proposal lacks its title.
abbrev broken : Saved
broken = record {
  seats = some (("0", "ada") ∷ []);
  elected_mayor = some "ada";
  proposals = some (
      (
        "GOV-0001",
        record {
          id = some "GOV-0001";
          title = none;
          description = none;
          proposer = some "ada";
          proposal_type = some "policy";
          action = some [];
          guardian_route = none;
          route_score = none;
          submitted_at = none;
          submitted_heartbeat = none;
          status = some "open";
          votes = none;
          result_hash = none;
        },
      )
      ∷ []);
  next_proposal_num = none;
  last_election_heartbeat = none;
  market_frozen = none;
  commission_override = none;
}

abbrev partly_restored : Council
partly_restored = record fresh { seats = (0, "ada") ∷ []; elected_mayor = some "ada" }
