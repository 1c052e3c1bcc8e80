-- ===== src/Tests/Immigration.antt =====
-- A small office: a founding agent, an application from its submission to the grant, a revocation.
use agent_city.Prelude.{
  sym, ◌+◌, ◌*◌, ◌≡◌, ◌≢◌, refl, ap, String, Bool, true, false, ◌&&◌, none, some, List, [], ◌∷◌,
  length, eqb, leb, if◌then◌else◌, arith,
}
use agent_city.Prelude.Key.{◌==◌, text_key}
use agent_city.Prelude.Dict.{lookup, replace, erase}
use agent_city.Prelude.Texts.{decimal, parse_int, parse_int-decimal}
use agent_city.Visa.{
  Visa, resident, revoked, in_force, Digests, Issue, issue_visa, revoke_visa, is_valid,
  restrictions_of, day,
}
use agent_city.Visa.Lifecycle.{issue_visa-valid, revoke_visa-never_valid}
use agent_city.Visa.Storage.{Calendar, to_dict, from_dict, from_dict-to_dict}
use agent_city.Immigration.{
  visa_row, application_row, ApplicationRow, Office, Application, citizen_application,
  council_approved, citizenship_granted, open_office, first_visa_of, latest_visa_of, genesis,
  save_visa, save_application, load_visa_by_agent, load_visa_by_id, load_application,
  row_to_application, row_to_visa,
}
use agent_city.Immigration.Process.{
  Review, submit_application, start_review, complete_review, move_to_council, record_council_vote,
  register_mahajan, grant_citizenship, citizen_visa, sponsorship, revoke_citizenship, process,
  judge, decide, mahajan,
}
use agent_city.Immigration.Lineage.{parampara, mahajan_of}
use agent_city.Immigration.Lineage.Roots.{Line}
use agent_city.Immigration.Steps.{
  Step, Reach, opened, stepped, submit, review, complete, convene, conclude, found, grant,
}
use agent_city.Immigration.Lineage.Filed.{IsFiled}
use agent_city.Immigration.Lineage.Ends.{parampara-ends}
use agent_city.Immigration.Steps.Registry.{Reach-Line}
use agent_city.Immigration.Steps.Filing.{HasIds}
use agent_city.Immigration.Steps.Journey.{IsSound, Continues}
use agent_city.Immigration.Steps.Journey.Kept.{Reach-IsSound, Step-Continues}
use agent_city.Immigration.Grants.{grant_citizenship_lem}

program : Unit {0}
unfolding lookup replace erase issue_visa revoke_visa restrictions_of open_office first_visa_of
    latest_visa_of genesis save_visa save_application load_visa_by_agent load_visa_by_id
    load_application row_to_application row_to_visa submit_application start_review complete_review
    move_to_council record_council_vote register_mahajan grant_citizenship citizen_visa sponsorship
    revoke_citizenship process judge decide mahajan
program = tt

-- Digests by the time alone, which differ in the runs below.
abbrev ds : Digests
ds = record {
  mahamantra = "hare";
  visa_digest = λ name t sponsor. if eqb t 1 then "v1" else if eqb t 2 then "v2" else "v3";
  application_digest = λ name t. "a1";
}

abbrev one_of : Bool → Bool → String
one_of a b = if a then "v1" else if b then "v2" else "v3"

abbrev same_text : String → String → Bool
same_text a b = a == b

one_of-empty : (a b : Bool) → one_of a b ≢ ""
one_of-empty true b e = ground (arith, ap (same_text "") e)
one_of-empty false true e = ground (arith, ap (same_text "") e)
one_of-empty false false e = ground (arith, ap (same_text "") e)

one_of-hare : (a b : Bool) → one_of a b ≢ "hare"
one_of-hare true b e = ground (arith, ap (same_text "hare") e)
one_of-hare false true e = ground (arith, ap (same_text "hare") e)
one_of-hare false false e = ground (arith, ap (same_text "hare") e)

ds-HasIds : HasIds ds
ds-HasIds name t sponsor = (one_of-empty (eqb t 1) (eqb t 2), one_of-hare (eqb t 1) (eqb t 2))

abbrev s0 : Office
s0 = open_office ds 1 [] []

abbrev s1 : Office
s1 = (register_mahajan ds 2 "ada" s0).0

abbrev s2 : Office
s2 = (submit_application ds 3 4 "bob" citizen_application resident s1).0

abbrev s3 : Office
s3 = (start_review ds 5 "a1" "ada" s2).0

abbrev good_review : Review
good_review = record {
  kyc_passed = true;
  contracts_passed = true;
  community_score = 800;
  notes = "fine";
}

abbrev s4 : Office
s4 = (complete_review ds 6 "a1" good_review s3).0

abbrev s5 : Office
s5 = (move_to_council ds "a1" "vote-7" s4).0

abbrev s6 : Office
s6 = (record_council_vote ds 8 "a1" true (("yes", 5) ∷ []) s5).0

abbrev s7 : Office
s7 = (grant_citizenship ds 9 "a1" "ada" s6).0

reached6 : Reach ds s6
unfolding program
reached6 =
    stepped
      (stepped
        (stepped
          (stepped
            (stepped (stepped (opened 1) (found 2 "ada" refl))
              (submit 3 4 "bob" citizen_application resident refl))
            (review 5 "a1" "ada"))
          (complete 6 "a1" good_review))
        (convene "a1" "vote-7"))
      (conclude 8 "a1" true (("yes", 5) ∷ []))

last_step : Step ds s6 s7
unfolding program
last_step = grant 9 "a1" "ada" (λ app loaded. refl)

abbrev bob_visa : Visa
bob_visa = record {
  agent_name = "bob";
  visa_class = resident;
  issued_at = 9;
  expires_at = 9 + day * 365;
  sponsor = "ada";
  status = in_force;
  restrictions = restrictions_of resident;
  visa_id = "v3";
  sponsor_visa_id = "v2";
  lineage_depth = 2;
  remarks = "Immigration application a1";
}

bob_id : bob_visa.visa_id ≢ ""
bob_id = one_of-empty false false

bob_has : load_visa_by_agent ds "bob" s7 ≡ some bob_visa
unfolding program
bob_has = refl

Reach-Line_example :
    (chain : List Visa) × (parampara ds "bob" s7 ≡ some chain)
    × Line ds bob_visa chain
    × (length chain ≡ 3)
    × ((g : Visa) × (mahajan_of ds "bob" s7 ≡ some (some g))
        × (g.sponsor_visa_id ≡ "hare")
        × (g.lineage_depth ≡ 0))
Reach-Line_example = Reach-Line ds ds-HasIds (stepped reached6 last_step) "bob" bob_visa bob_has

abbrev waiting : Application
waiting = (submit_application ds 3 4 "bob" citizen_application resident s1).1

abbrev elected : Application
elected = record waiting {
  status = council_approved;
  reviewed_at = some 5;
  reviewer = "ada";
  kyc_passed = true;
  contracts_passed = true;
  community_score = 800;
  review_notes = "fine";
  council_vote_id = some "vote-7";
  council_approved = some true;
  council_vote_count = ("yes", 5) ∷ [];
}

abbrev granted_row : ApplicationRow
granted_row =
    application_row (record elected { status = citizenship_granted; issued_visa = some bob_visa })

elected_files : lookup "a1" s6.applications ≡ some (application_row elected)
unfolding program
elected_files = refl

granted_files : lookup "a1" s7.applications ≡ some granted_row
unfolding program
granted_files = refl

Reach-IsSound_example : IsSound "a1" granted_row
Reach-IsSound_example = Reach-IsSound ds (stepped reached6 last_step) "a1" granted_row granted_files

Step-Continues_example :
    (r' : ApplicationRow) × (lookup "a1" s7.applications ≡ some r')
    × Continues (application_row elected) r'
Step-Continues_example =
    Step-Continues ds reached6 last_step "a1" (application_row elected) elected_files

elected_loads : load_application ds "a1" s6 ≡ some elected
unfolding program
elected_loads = refl

grant_citizenship_lem_example :
    (v : Visa) × ((grant_citizenship ds 9 "a1" "ada" s6).1 ≡ some v)
    × (v.agent_name ≡ "bob")
    × (v.visa_class ≡ resident)
    × (v.lineage_depth
        ≡ elim (load_visa_by_agent ds "ada" s6) [ none ↦ 1 | some w ↦ w.lineage_depth + 1 ])
    × (load_visa_by_id ds v.visa_id s7 ≡ some v)
    × (load_application ds "a1" s7
        ≡ some (record elected { status = citizenship_granted; issued_visa = some v }))
unfolding submit_application
grant_citizenship_lem_example =
    grant_citizenship_lem ds 9 "a1" "ada" elected s6 (λ name t by. (ds-HasIds name t by).0)
      elected_loads refl

abbrev visit : Issue
visit = record {
  agent_name = "eve";
  visa_class = resident;
  sponsor = "ada";
  issued_at = 100;
  duration_days = none;
  sponsor_visa_id = some "v2";
  lineage_depth = 2;
  remarks = "";
}

issue_visa-valid_example :
    is_valid 200 (issue_visa ds visit) ≡ (true && leb 100 200 && leb 200 (100 + day * 365))
issue_visa-valid_example = issue_visa-valid ds visit 200

revoke_visa-never_valid_example :
    (is_valid 60 (revoke_visa ds 50 "fraud" bob_visa) ≡ false)
    × ((revoke_visa ds 50 "fraud" bob_visa).restrictions ≡ restrictions_of revoked)
    × ((revoke_visa ds 50 "fraud" bob_visa).visa_id ≡ "v3")
    × ((revoke_visa ds 50 "fraud" bob_visa).sponsor_visa_id ≡ "v2")
    × ((revoke_visa ds 50 "fraud" bob_visa).lineage_depth ≡ 2)
revoke_visa-never_valid_example = revoke_visa-never_valid ds 50 60 "fraud" bob_visa bob_id

-- A calendar that writes a time as its number.
abbrev plain_calendar : Calendar
plain_calendar = record { isoformat = decimal; fromisoformat = parse_int }

from_dict-to_dict_example :
    from_dict plain_calendar ds (to_dict plain_calendar bob_visa) ≡ some bob_visa
from_dict-to_dict_example = from_dict-to_dict plain_calendar ds bob_visa parse_int-decimal bob_id

-- Two visas that name each other as sponsors.
abbrev eve_visa : Visa
eve_visa = record bob_visa {
  agent_name = "eve";
  visa_id = "v2";
  sponsor_visa_id = "v3";
  sponsor = "bob";
}

abbrev cycle : Office
cycle = record s0 { visas = ("v3", visa_row bob_visa) ∷ ("v2", visa_row eve_visa) ∷ [] }

differ : eve_visa.visa_id ≢ bob_visa.visa_id
differ e = ground (arith, ap (same_text "v2") e)

eve_id : eve_visa.visa_id ≢ ""
eve_id = one_of-empty false true

cycle-IsFiled : IsFiled cycle.visas
unfolding IsFiled
cycle-IsFiled = ((((λ e. differ (sym e)), tt), (tt, tt)), ((refl, bob_id), ((refl, eve_id), tt)))

parampara-ends_example : parampara ds "eve" cycle ≢ none
parampara-ends_example = parampara-ends ds cycle cycle-IsFiled "eve"
