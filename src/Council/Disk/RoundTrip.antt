-- ===== src/Council/Disk/RoundTrip.antt =====
-- A saved council is restored as it was.
use mathlib.Core.Path.{subst}
use agent_city.Prelude.{
  ℕ, ◌≡◌, refl, sym, String, true, some, [], ◌∷◌, ◌++◌, arith, append-nil, append_assoc, All-before,
}
use agent_city.Prelude.Dict.{Dict, Unique, insert_new}
use agent_city.Prelude.Key.{text_key, number_key}
use agent_city.Prelude.Texts.{parse_int-decimal}
use agent_city.Council.{Council, Proposal, ProposalStatus, ProposalType}
use agent_city.Council.Disk.{
  status_value, status_of, type_value, type_of, save_proposal, restore_proposal, save_seats,
  save_proposals, restore_seats, restore_proposals, to_dict, restore_from_dict,
}

status_of-value : (s : ProposalStatus) → status_of (status_value s) ≡ some s
unfolding status_of status_value
status_of-value ProposalStatus.still_open = refl
status_of-value ProposalStatus.passed = refl
status_of-value ProposalStatus.rejected = refl
status_of-value ProposalStatus.executed = refl
status_of-value ProposalStatus.expired = refl

type_of-value : (t : ProposalType) → type_of (type_value t) ≡ some t
unfolding type_of type_value
type_of-value ProposalType.policy = refl
type_of-value ProposalType.constitutional = refl
type_of-value ProposalType.marketplace = refl

restore-save_proposal : (p : Proposal) → restore_proposal (save_proposal p) ≡ some p
unfolding restore_proposal save_proposal
restore-save_proposal p = ground (arith, status_of-value p.status, type_of-value p.proposal_type)

abbrev Seats : Type 0
Seats = Dict ℕ String

abbrev Proposals : Type 0
Proposals = Dict String Proposal

restore-save_seats :
    (seats acc : Seats)
    → Unique (acc ++ seats)
    → restore_seats (save_seats seats) acc ≡ some (acc ++ seats)
unfolding restore_seats save_seats
restore-save_seats [] acc u = rw append-nil
restore-save_seats ((i, name) ∷ seats) acc u =
    let there = acc ++ (i, name) ∷ [] in
    let grown : there ++ seats ≡ acc ++ (i, name) ∷ seats = append_assoc acc _ seats in
    ground (
      arith,
      parse_int-decimal i,
      insert_new i name acc (All-before _ acc (i, name) seats u),
      grown,
      restore-save_seats seats there (subst Unique (sym grown) u),
    )

restore-save_proposals :
    (ps acc : Proposals)
    → Unique (acc ++ ps)
    → restore_proposals (save_proposals ps) acc ≡ (acc ++ ps, true)
unfolding restore_proposals save_proposals
restore-save_proposals [] acc u = rw append-nil
restore-save_proposals ((k, p) ∷ ps) acc u =
    let there = acc ++ (k, p) ∷ [] in
    let grown : there ++ ps ≡ acc ++ (k, p) ∷ ps = append_assoc acc _ ps in
    ground (
      arith,
      restore-save_proposal p,
      insert_new k p acc (All-before _ acc (k, p) ps u),
      grown,
      restore-save_proposals ps there (subst Unique (sym grown) u),
    )

-- No key stands twice in the dicts of the council.
pub record IsKeyed (c : Council) : Type 0 where
  pub seats : Unique c.seats
  pub proposals : Unique c.proposals

-- Restoring what to_dict saved of a council in whose dicts no key stands twice, into any council,
-- gives the saved council back, whole.
pub restore-to_dict : (c d : Council) → IsKeyed c → restore_from_dict (to_dict c) d ≡ (c, true)
unfolding restore_from_dict to_dict
restore-to_dict c d k = ground (
  arith,
  restore-save_seats c.seats [] k.seats,
  restore-save_proposals c.proposals [] k.proposals,
)
