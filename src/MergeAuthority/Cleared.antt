-- ===== src/MergeAuthority/Cleared.antt =====
-- How the parts of a merge end: the checks of city/review_governance/merge_authority.py and `reconcile`.
use agent_city.Prelude.{
  ◌≡◌, String, Bool, true, false, not, ◌&&◌, ◌||◌, some, arith, if_either, option_either,
}
use agent_city.Prelude.Key.{text_key}
use agent_city.Prelude.Json.{text}
use agent_city.ReviewLedger.{Payload, attempt_id, done}
use agent_city.ReviewLedger.Lineage.{Lineage, readiness_lineage}
use agent_city.MergeAuthority.{Authority, Evaluation, FinalMergeSnapshot, Outside, World}
use agent_city.MergeAuthority.Checks.{
  validate_final_state, is_mergeable, is_closed_by_merge, has_evidence, agrees_with_council,
  needs_no_council, is_text, is_current, subject,
}
use agent_city.MergeAuthority.Entries.{record_external_merge, observe_external}
use agent_city.MergeAuthority.Reconcile.{
  reconcile, is_proven, is_value, judge, complete, is_confirmed_request,
}
use agent_city.MergeAuthority.Rules.{
  Commands, Ends, required, weaken-Ends, bind, require-Ends, resolve-Ends, timestamp-Ends,
  consult-Ends, write-Ends, give-Ends, raised-Ends, Ending,
}

-- What a snapshot has gone past.
pub record Validated (e : Evaluation) (s : FinalMergeSnapshot) (allow : Bool) : Type 0 where
  pub request : is_confirmed_request e s ≡ true
  pub stands : (is_mergeable s || (allow && is_closed_by_merge s)) ≡ true
  pub evidence : has_evidence s ≡ true
  pub council : agrees_with_council e s ≡ true
  pub no_council : needs_no_council e s ≡ true
  pub latest : is_text e.evaluation_id s.latest_readiness_evaluation_id ≡ true
  pub still_valid : s.readiness_invalidated ≡ false

-- A snapshot of the evaluation's pull request, merged.
pub record IsMerged (e : Evaluation) (s : FinalMergeSnapshot) : Type 0 where
  pub is_merged : s.merged ≡ true
  pub request : is_confirmed_request e s ≡ true

-- What the ledger has been asked on the way, in a world of which `K` holds.
pub record IsCurrent (K : World → Type 0) (o : Outside) (e : Evaluation) (s : FinalMergeSnapshot)
    : Type 0 where
  pub asked : World
  pub there : K asked
  pub lineage : Lineage
  pub in_ledger : readiness_lineage o.coding (subject e) asked.file ≡ done lineage
  pub current : is_current e s lineage ≡ true

module _ (K : World → Type 0) (a : Authority) (o : Outside) (e : Evaluation) where
  pub validate-Ends :
      (s : FinalMergeSnapshot) (allow : Bool) (w : World)
      → K w
      → Ends {A = Bool} K
          (λ _. Validated e s allow × IsCurrent K o e s)
          (validate_final_state a o e s allow w)
  unfolding validate_final_state
  validate-Ends s allow w h = required K _ _ _ _ _ h (λ _ w h same.
      required K _ _ _ _ _ h (λ _ w h stands. required K _ _ _ _ _ h (λ _ w h head.
        required K _ _ _ _ _ h (λ _ w h base. required K _ _ _ _ _ h (λ _ w h integration.
          required K _ _ _ _ _ h (λ _ w h evidence. required K _ _ _ _ _ h (λ _ w h council.
            required K _ _ _ _ _ h (λ _ w h no_council. required K _ _ _ _ _ h (λ _ w h latest.
              required K _ _ _ _ _ h (λ _ w h valid. required K _ _ _ _ _ h (λ _ w h ledger.
                bind K _ _ _ _ _ (consult-Ends K _ _ w h) (λ lineage w' h' read.
                  required K _ _ _ _ _ h' (λ _ w' h' current.
                    bind K _ _ _ _ _ (consult-Ends K _ _ _ h') (λ _ w' h' payload.
                      weaken-Ends K _ _ _
                        (λ _ identities. (
                          record {
                            request = ground (arith, same, head, base, integration);
                            stands = stands;
                            evidence = evidence;
                            council = council;
                            no_council = no_council;
                            latest = latest;
                            still_valid = ground (arith, valid);
                          },
                          record {
                            asked = w;
                            there = h;
                            lineage = lineage;
                            in_ledger = read;
                            current = current;
                          },
                        ))
                        (require-Ends K _ _ _ h')))))))))))))))

-- Of what is left behind, only the commands that were run matter here.
module _ (L : Commands → Type 0) (a : Authority) (o : Outside) (e : Evaluation) where
  abbrev K : World → Type 0
  K w = L w.runs

  external-Ends :
      (s : FinalMergeSnapshot) (reason : String) (w : World)
      → L w.runs
      → Ends {A = Bool} (λ v. L v.runs) (λ _. Unit) (record_external_merge a o s reason w)
  unfolding record_external_merge
  external-Ends s reason w h =
      if_either (Ending K {A = Bool} (λ _. Unit) w) (not a.has_ledger) (give-Ends K _ false w h tt)
        (option_either (Ending K {A = Bool} (λ _. Unit) w) s.final_merge_sha
          (give-Ends K _ false w h tt)
          (λ sha. bind K _ _ _ _ _ (consult-Ends K _ _ _ h) (λ found w h _.
            option_either (Ending K {A = Bool} (λ _. Unit) w) found
              (bind K _ _ _ _ _ (timestamp-Ends K o _ h) (λ time w h _.
                bind K _ _ _ _ _ (write-Ends K _ _ _ h) (λ _ w h _. give-Ends K _ true w h tt)))
              (λ _. give-Ends K _ false w h tt))))

  pub observe-Ends :
      (F : FinalMergeSnapshot → Type 0) (s : FinalMergeSnapshot) (reason : String) (w : World)
      → L w.runs
      → Ends (λ v. L v.runs) F (observe_external a o s reason w)
  unfolding observe_external
  observe-Ends F s reason w h =
      bind K _ _ _ _ _ (external-Ends s reason w h) (λ _ w h _. raised-Ends K F _ w h)

  complete-Ends :
      (attempt : String) (reservation : Payload) (s : FinalMergeSnapshot)
      (base actor reason : String) (w : World)
      → L w.runs
      → IsMerged e s
      → Ends (λ v. L v.runs) (IsMerged e) (complete o e attempt reservation s base actor reason w)
  unfolding complete
  complete-Ends attempt reservation s base actor reason w h done_well =
      bind K _ _ _ _ _ (consult-Ends K _ _ _ h) (λ existing w h _.
        option_either (Ending K (IsMerged e) w) existing
          (bind K _ _ _ _ _ (timestamp-Ends K o _ h) (λ time w h _.
            bind K _ _ _ _ _ (write-Ends K _ _ _ h) (λ _ w h _. give-Ends K _ s w h done_well)))
          (λ c. required K _ _ _ _ _ h (λ _ w h _. give-Ends K _ s w h done_well)))

  judge-Ends :
      (attempt : String) (reservation : Payload) (s : FinalMergeSnapshot)
      (base actor reason : String) (w : World)
      → L w.runs
      → IsMerged e s
      → Ends (λ v. L v.runs) (IsMerged e) (judge a o e attempt reservation s base actor reason w)
  unfolding judge
  judge-Ends attempt reservation s base actor reason w h done_well =
      bind K _ _ _ _ _ (consult-Ends K _ _ _ h) (λ proof w h _.
        option_either (Ending K (IsMerged e) w) proof
          (if_either (Ending K (IsMerged e) w) (is_value (some (text actor)) s.merged_by)
            (raised-Ends K _ _ w h) (observe-Ends (IsMerged e) s _ w h))
          (λ p.
            option_either (Ending K (IsMerged e) w) (is_proven p.unsigned.payload reservation s)
              (raised-Ends K _ _ w h)
              (λ proven.
                if_either (Ending K (IsMerged e) w) proven
                  (complete-Ends attempt reservation s base actor reason w h done_well)
                  (observe-Ends (IsMerged e) s _ w h))))

  pub reconcile-Ends :
      (base actor reason : String) (w : World)
      → L w.runs
      → Ends (λ v. L v.runs) (IsMerged e) (reconcile a o e base actor reason w)
  unfolding reconcile
  reconcile-Ends base actor reason w h = required K _ _ _ _ _ h (λ _ w h _.
      bind K _ _ _ _ _ (consult-Ends K _ _ _ h) (λ reservation w h _.
        option_either (Ending K (IsMerged e) w) reservation (raised-Ends K _ _ w h) (λ r.
          option_either (Ending K (IsMerged e) w) (attempt_id r.unsigned.payload)
            (raised-Ends K _ _ w h)
            (λ attempt. bind K _ _ _ _ _ (resolve-Ends K o _ h) (λ s w h _.
              required K _ _ _ _ _ h (λ _ w h merged. required K _ _ _ _ _ h (λ _ w h request.
                required K _ _ _ _ _ h (λ _ w h _.
                  judge-Ends attempt r.unsigned.payload s base actor reason w h
                    (record { is_merged = ground (arith, merged); request = request })))))))))
