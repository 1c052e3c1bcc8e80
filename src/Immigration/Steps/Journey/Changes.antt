-- ===== src/Immigration/Steps/Journey/Changes.antt =====
-- The changes that the operations make to an application are moves of the journey.
use agent_city.Prelude.{
  ℕ, ◌≡◌, refl, sym, ap, String, Bool, true, false, ◌&&◌, arith, Bool-cases, inl, inr,
}
use mathlib.Core.Path.{subst}
use agent_city.Prelude.Key.{text_key}
use agent_city.Prelude.Dict.{Dict}
use agent_city.Visa.{Digests}
use agent_city.Immigration.{
  Office, Application, ApplicationRow, ApplicationStatus, pending, under_review, approved,
  council_pending, council_approved, council_rejected, application_row, row_to_application,
}
use agent_city.Immigration.Process.{Review, reviewing, judge, putting_to_vote, decide}
use agent_city.Immigration.Steps.Journey.{
  Moves, opens, passes, fails, convenes, elects, declines, was_checked, IsSound, Continues,
}

module _ (ds : Digests) where
  -- A change that the operations make, from the status that they ask for.
  pub record IsChange (expected : ApplicationStatus) (change : Application → Application)
      : Type 0 where
    pub sound :
        (id : String) (s : Office) (r : ApplicationRow)
        → r.status ≡ expected
        → IsSound id r
        → IsSound id (application_row (change (row_to_application ds s r)))
    pub continues :
        (s : Office) (r : ApplicationRow)
        → r.status ≡ expected
        → Continues r (application_row (change (row_to_application ds s r)))

  pub reviewing-IsChange : (now : ℕ) (reviewer : String) → IsChange pending (reviewing now reviewer)
  unfolding row_to_application
  reviewing-IsChange now reviewer = record {
    sound = λ id s r at_ fine. record {
      own = fine.own;
      checked = λ h. ground arith;
      elected = λ h. ground arith;
    };
    continues = λ s r at_. record {
      moves = subst (λ a. Moves a under_review) (sym at_) opens;
      agent = refl;
      asked = refl;
    };
  }

  judge-Moves :
      (now : ℕ) (r : Review) (app : Application) → Moves under_review (judge now r app).status
  unfolding judge
  judge-Moves now r app = elim (Bool-cases (r.kyc_passed && r.contracts_passed)) [
    | inl both ↦ subst (Moves under_review) (ground arith) passes
    | inr lacks ↦ subst (Moves under_review) (ground arith) fails
  ]

  pub judge-IsChange : (now : ℕ) (r : Review) → IsChange under_review (judge now r)
  unfolding row_to_application judge
  judge-IsChange now r = record {
    sound = λ id s q at_ fine. record {
      own = ground (arith, fine.own);
      checked = λ h. (ground arith, ground arith);
      elected = λ h. ground arith;
    };
    continues = λ s q at_. record {
      moves =
          subst (λ a. Moves a (judge now r (row_to_application ds s q)).status) (sym at_)
            (judge-Moves now r (row_to_application ds s q));
      agent = ground arith;
      asked = ground arith;
    };
  }

  pub putting_to_vote-IsChange : (vote_id : String) → IsChange approved (putting_to_vote vote_id)
  unfolding row_to_application
  putting_to_vote-IsChange vote_id = record {
    sound = λ id s q at_ fine. record {
      own = fine.own;
      checked = λ h. fine.checked (ap was_checked at_);
      elected = λ h. ground arith;
    };
    continues = λ s q at_. record {
      moves = subst (λ a. Moves a council_pending) (sym at_) convenes;
      agent = refl;
      asked = refl;
    };
  }

  pub decide-IsChange :
      (now : ℕ) (said : Bool) (tally : Dict String ℕ)
      → IsChange council_pending (decide now said tally)
  unfolding row_to_application decide
  decide-IsChange now true tally = record {
    sound = λ id s q at_ fine. record {
      own = fine.own;
      checked = λ h. fine.checked (ap was_checked at_);
      elected = λ h. refl;
    };
    continues = λ s q at_. record {
      moves = subst (λ a. Moves a council_approved) (sym at_) elects;
      agent = refl;
      asked = refl;
    };
  }
  decide-IsChange now false tally = record {
    sound = λ id s q at_ fine. record {
      own = fine.own;
      checked = λ h. fine.checked (ap was_checked at_);
      elected = λ h. ground arith;
    };
    continues = λ s q at_. record {
      moves = subst (λ a. Moves a council_rejected) (sym at_) declines;
      agent = refl;
      asked = refl;
    };
  }
