-- ===== src/Tests/Referendum.antt =====
-- A referral of the council, on which a citizen votes before it is closed.
use agent_city.Prelude.{String, ◌≡◌, refl, some, none}
use agent_city.Prelude.Key.{text_key}
use agent_city.Prelude.Dict.{lookup, insert}
use agent_city.Prelude.Texts.{zero_padded}
use agent_city.Referendum.{Referendum, Results, aye, default_config, council_referral, rejected}
use agent_city.Referendum.Engine.{
  Engine, new_engine, trigger_council_referral, cast_vote, finalize_expired_referendums, drafted,
  voting_started,
}
use agent_city.Referendum.Reached.{
  Reached, start, after, refer, vote, close, IsEmpty, Reached-IsEmpty,
}

abbrev digest : Results → String
digest results = "digest"

abbrev opened : Engine
opened = (trigger_council_referral 0 "Zones" "More zones" "ada" (new_engine none)).0

abbrev voted : Engine
voted = (cast_vote 1000 "ref_0001" "bob" aye 5000 opened).0

abbrev closed : Engine
closed = (finalize_expired_referendums digest 200000000 voted).0

closed-Reached : Reached none closed
closed-Reached =
    after
      (after (after start (refer 0 "Zones" "More zones" "ada"))
        (vote 1000 "ref_0001" "bob" aye 5000))
      (close digest 200000000)

-- It is rejected by a vote in which nobody takes part.
abbrev outcome : Referendum
outcome =
    record (voting_started 0
      (drafted default_config 0 "ref_0001" "Zones" "More zones" "ada" council_referral)) {
        status = rejected;
        total_turnout = (0, 1);
        result_hash = some "digest";
      }

on_it : lookup "ref_0001" closed.referendums ≡ some outcome
unfolding lookup insert new_engine trigger_council_referral cast_vote finalize_expired_referendums
    zero_padded
on_it = refl

Reached-IsEmpty_example : IsEmpty outcome
Reached-IsEmpty_example = Reached-IsEmpty closed-Reached "ref_0001" outcome on_it
