-- ===== src/MergeAuthority/Allowed.antt =====
-- What a merge's command waits for, in city/review_governance/merge_authority.py.
use agent_city.Prelude.{◌+◌, ◌≡◌, ◌⊎◌, String, true, false, some, ◌∷◌}
use agent_city.Prelude.Key.{◌==◌, text_key}
use agent_city.ReviewLedger.Lineage.{Lineage, readiness_lineage}
use agent_city.ReviewLedger.{Event, File, Answer, reserve_merge_attempt, done, has_text}
use agent_city.MergeAuthority.{Authority, Evaluation, FinalMergeSnapshot, Outside, World}
use agent_city.MergeAuthority.Checks.{
  is_mergeable, has_evidence, agrees_with_council, needs_no_council, is_text, is_current, subject,
}
use agent_city.MergeAuthority.Entries.{reserved_payload}
use agent_city.MergeAuthority.Reconcile.{is_confirmed_request}
use agent_city.MergeAuthority.Merge.{command}
use agent_city.MergeAuthority.Rules.{Commands}

-- What the ledger answers to the reservation of the evaluation, on its file as the call finds it.
abbrev pub reservation_at : Outside → Evaluation → String → String → World → File × Answer Event
reservation_at o e actor reason w =
    reserve_merge_attempt o.coding e.evaluation_id
      (reserved_payload o e actor reason (o.clock w.ticks)) w.file

-- The ledger answers with a reservation, and it is this worker's and for the expected head.
pub record IsOwn (o : Outside) (e : Evaluation) (actor reason : String) (w : World) : Type 0 where
  pub reservation : Event
  pub reserved : (reservation_at o e actor reason w).1 ≡ done reservation
  pub own : has_text "worker_identity" o.worker_identity reservation.unsigned.payload ≡ true
  pub same_head :
      has_text "merge_expected_head_sha" e.merge_expected_head_sha reservation.unsigned.payload
      ≡ true

-- What the host answers to the second question of the call, which follows the reservation: the pull request
-- is still open and as it was evaluated; and in the ledger with the reservation the evaluation is still the
-- latest and not invalidated, and the ledger ends where the host's answer says.
pub record IsCleared (o : Outside) (e : Evaluation) (actor reason : String) (w : World)
    : Type 0 where
  pub snapshot : FinalMergeSnapshot
  pub answered : o.resolve (w.resolved + 1) ≡ some snapshot
  pub not_merged : snapshot.merged ≡ false
  pub mergeable : is_mergeable snapshot ≡ true
  pub request : is_confirmed_request e snapshot ≡ true
  pub evidence : has_evidence snapshot ≡ true
  pub council : agrees_with_council e snapshot ≡ true
  pub no_council : needs_no_council e snapshot ≡ true
  pub latest : is_text e.evaluation_id snapshot.latest_readiness_evaluation_id ≡ true
  pub still_valid : snapshot.readiness_invalidated ≡ false
  pub lineage : Lineage
  pub in_ledger :
      readiness_lineage o.coding (subject e) (reservation_at o e actor reason w).0 ≡ done lineage
  pub current : is_current e snapshot lineage ≡ true

pub record IsAllowed (a : Authority) (o : Outside) (e : Evaluation) (actor reason : String)
    (w : World) : Type 0 where
  pub enabled : a.enabled ≡ true
  pub ready : (e.readiness_state == "ready") ≡ true
  pub own : IsOwn o e actor reason w
  pub cleared : IsCleared o e actor reason w

-- From the world in which the call begins: nothing was run, or the command alone, which was allowed there.
abbrev pub AtMostOne :
    Authority → Outside → Evaluation → String → String → World → Commands → Type 0
AtMostOne a o e actor reason w after =
    (after ≡ w.runs) ⊎ ((after ≡ command e ∷ w.runs) × IsAllowed a o e actor reason w)
