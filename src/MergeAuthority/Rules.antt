-- ===== src/MergeAuthority/Rules.antt =====
-- How an action of MergeAuthority ends, put together from how its parts end.
use agent_city.Prelude.{◌+◌, ◌≡◌, refl, String, Bool, true, false, Option, none, some, List, ◌∷◌}
use agent_city.ReviewLedger.{File, Answer, done, failed, LedgerError, Event}
use agent_city.MergeAuthority.{
  Outside, World, Outcome, returned, raised, Failure, unresolved, give, Action, continue, ◌>>=◌,
  require, resolve, timestamp, run, write, consult, RunAnswer, FinalMergeSnapshot,
}

abbrev pub Commands : Type 0
Commands = List (List String)

abbrev pub Returns : {A : Type 0} → (A → Type 0) → Outcome A → Type 0
Returns F (returned a) = F a
Returns F (raised e) = Unit

-- What is left behind is as `K` says, and what is returned, if anything is, is as `F` says.
pub record Ends {A : Type 0} (K : World → Type 0) (F : A → Type 0) (x : World × Outcome A)
    : Type 0 where
  pub world : K x.0
  pub answer : Returns F x.1

continue-Ends :
    {A B : Type 0} (J K : World → Type 0) (G : A → Type 0) (F : B → Type 0) (x : World × Outcome A)
    (k : A → Action B)
    → Ends J G x
    → ((w : World) → J w → K w)
    → ((a : A) (w : World) → J w → G a → Ends K F (k a w))
    → Ends K F (continue x k)
unfolding continue
continue-Ends _ K G F (w, returned a) k h weaken next = next a w h.world h.answer
continue-Ends _ K G F (w, raised e) k h weaken next = record {
  world = weaken w h.world;
  answer = tt;
}

pub bind_from :
    {A B : Type 0} (J K : World → Type 0) (G : A → Type 0) (F : B → Type 0) (m : Action A)
    (k : A → Action B) (w : World)
    → ((w : World) → J w → K w)
    → Ends J G (m w)
    → ((a : A) (w' : World) → J w' → G a → Ends K F (k a w'))
    → Ends K F ((m >>= k) w)
unfolding ◌>>=◌
bind_from before K G F m k w weaken first next =
    continue-Ends before K G F (m w) k first weaken next

module _ (K : World → Type 0) where
  pub bind :
      {A B : Type 0} (G : A → Type 0) (F : B → Type 0) (m : Action A) (k : A → Action B) (w : World)
      → Ends K G (m w)
      → ((a : A) (w' : World) → K w' → G a → Ends K F (k a w'))
      → Ends K F ((m >>= k) w)
  bind G F m k w first next = bind_from K K G F m k w (λ r h. h) first next

  pub require-Ends :
      (b : Bool) (code : String) (w : World)
      → K w
      → Ends {A = Bool} K (λ _. b ≡ true) (require b code w)
  unfolding require
  require-Ends true code w h = record { world = h; answer = refl }
  require-Ends false code w h = record { world = h; answer = tt }

  -- Past a `require`.
  pub required :
      {B : Type 0} (F : B → Type 0) (b : Bool) (code : String) (k : Bool → Action B) (w : World)
      → K w
      → ((a : Bool) (w' : World) → K w' → b ≡ true → Ends K F (k a w'))
      → Ends K F ((require b code >>= k) w)
  required F b code k w h next = bind _ F _ k w (require-Ends b code w h) next

  pub weaken-Ends :
      {A : Type 0} (G F : A → Type 0) (x : World × Outcome A)
      → ((a : A) → G a → F a)
      → Ends K G x
      → Ends K F x
  weaken-Ends G F (w, returned a) f h = record { world = h.world; answer = f a h.answer }
  weaken-Ends G F (w, raised e) f h = record { world = h.world; answer = tt }

  resolve_go :
      (w : World) (x : Option FinalMergeSnapshot)
      → K w
      → Ends {A = FinalMergeSnapshot} K
          (λ s. x ≡ some s)
          (elim x [ none ↦ (w, raised unresolved) | some s ↦ (w, returned s) ])
  resolve_go w none h = record { world = h; answer = tt }
  resolve_go w (some s) h = record { world = h; answer = refl }

  pub resolve-Ends :
      (o : Outside) (w : World)
      → K (record w { resolved = w.resolved + 1 })
      → Ends {A = FinalMergeSnapshot} K (λ s. o.resolve w.resolved ≡ some s) (resolve o w)
  unfolding resolve
  resolve-Ends o w h = resolve_go (record w { resolved = w.resolved + 1 }) (o.resolve w.resolved) h

  pub timestamp-Ends :
      (o : Outside) (w : World)
      → K (record w { ticks = w.ticks + 1 })
      → Ends {A = String} K (λ t. t ≡ o.clock w.ticks) (timestamp o w)
  unfolding timestamp
  timestamp-Ends o w h = record { world = h; answer = refl }

  pub answer-Ends :
      {A : Type 0} (turn : LedgerError → Failure) (w : World) (x : Answer A)
      → K w
      → Ends {A = A} K
          (λ a. x ≡ done a)
          (elim x [ done a ↦ (w, returned a) | failed e ↦ (w, raised (turn e)) ])
  answer-Ends turn w (done a) h = record { world = h; answer = refl }
  answer-Ends turn w (failed e) h = record { world = h; answer = tt }

  pub consult-Ends :
      {A : Type 0} (turn : LedgerError → Failure) (call : File → Answer A) (w : World)
      → K w
      → Ends {A = A} K (λ a. call w.file ≡ done a) (consult turn call w)
  unfolding consult
  consult-Ends turn call w h = answer-Ends turn w (call w.file) h

  pub write-Ends :
      (turn : LedgerError → Failure) (call : File → File × Answer Event) (w : World)
      → K (record w { file = (call w.file).0 })
      → Ends {A = Event} K (λ e. (call w.file).1 ≡ done e) (write turn call w)
  unfolding write
  write-Ends turn call w h =
      answer-Ends turn (record w { file = (call w.file).0 }) (call w.file).1 h

  pub give-Ends :
      {A : Type 0} (F : A → Type 0) (a : A) (w : World) → K w → F a → Ends K F (give a w)
  give-Ends F a w h q = record { world = h; answer = q }

  pub raised-Ends :
      {A : Type 0} (F : A → Type 0) (e : Failure) (w : World) → K w → Ends {A = A} K F (w, raised e)
  raised-Ends F e w h = record { world = h; answer = tt }

  -- Of an action, how it ends: for tests inside it.
  abbrev pub Ending : {A : Type 0} → (A → Type 0) → World → Action A → Type 0
  Ending F w m = Ends K F (m w)

  pub run-Ends :
      (o : Outside) (args : List String) (w : World)
      → K (record w { runs = args ∷ w.runs })
      → Ends {A = RunAnswer} K (λ _. Unit) (run o args w)
  unfolding run
  run-Ends o args w h = record { world = h; answer = tt }
