-- ===== src/ThreadState/Lifetime.antt =====
-- How long a thread lives that no human comments on.
use mathlib.Core.Path.{subst}
use agent_city.Prelude.{
  ℕ, zero, suc, ◌+◌, ◌-◌, ◌≤◌, ◌<◌, ◌≡◌, refl, sym, true, List, [], ◌∷◌, arith, Bool-cases, inl,
  inr, All, All-map, length,
}
use agent_city.ThreadState.{
  Energy, Thread, Board, is_archived, decay, below_archive, answered, record_agent_response,
  decay_row, decay_rows, decay_all, spent,
}
use agent_city.ThreadState.Bounds.{IsThread, IsBoard, All-update, decay_row-IsThread}

-- The energy after so many more heartbeats.
abbrev decays : ℕ → Energy → Energy
decays zero e = e
decays (suc n) e = decays n (decay e)

abbrev pub lifetime : ℕ
lifetime = 36

-- Within so many heartbeats the energy is below the threshold.
abbrev IsSpent : ℕ → Energy → Type 0
IsSpent n e = below_archive (decays n e) ≡ true

IsThread-IsSpent : (t : Thread) → IsThread t → IsSpent lifetime t.energy
IsThread-IsSpent t h = ground (arith, h.is_number, h.at_most_full)

decays-decay : (n : ℕ) (e : Energy) → decays n (decay e) ≡ decay (decays n e)
decays-decay zero e = refl
decays-decay (suc n) e = decays-decay n (decay e)

IsSpent-suc : (n : ℕ) (e : Energy) → IsSpent n e → IsSpent (suc n) e
IsSpent-suc n e h = rw (decays-decay n e) (ground (arith, h))

IsSpent-later : (k n m : ℕ) (e : Energy) → k + n ≡ m → IsSpent n e → IsSpent m e
IsSpent-later zero n m e eq h = let p : n ≡ m = omega arith in subst (λ i. IsSpent i e) p h
IsSpent-later (suc k) n m e eq h =
    let p : suc (k + n) ≡ m = omega arith in
    subst (λ i. IsSpent i e) p (IsSpent-suc (k + n) e (IsSpent-later k n (k + n) e refl h))

IsSpent-none : (n : ℕ) (e : Energy) → 0 < e.whole → e.parts ≡ 0 → IsSpent n e
IsSpent-none zero e w p = ground (arith, w, p)
IsSpent-none (suc n) e w p = IsSpent-none n (decay e) (omega arith) (omega arith)

-- What a row has with so many heartbeats to go.
record Ready (n : ℕ) (t : Thread) : Type 0 where
  is_thread : IsThread t
  runs_out : IsSpent n t.energy

-- A heartbeat: the agents' responses, each at its time and to its discussion, and then the decay.
unfoldable pub heartbeat : List (ℕ × ℕ) → Board → Board
heartbeat [] d = (decay_all d).0
heartbeat ((now, n) ∷ rest) d = heartbeat rest (record_agent_response now n d)

unfoldable pub heartbeats : List (List (ℕ × ℕ)) → Board → Board
unfolding heartbeat
heartbeats [] d = d
heartbeats (b ∷ bs) d = heartbeats bs (heartbeat b d)

IsQuiet : Board → Type 0
IsQuiet = All (λ r. is_archived r.1.status ≡ true)

decay_row-Ready : (n : ℕ) (t : Thread) → Ready (suc n) t → Ready n (decay_row t)
unfolding decay_row
decay_row-Ready n t h = elim (Bool-cases (below_archive (decay t.energy))) [
  | inl low ↦ record {
    is_thread = decay_row-IsThread t h.is_thread;
    runs_out = rw low (IsSpent-none n spent (omega arith) refl);
  }
  | inr high ↦ record {
    is_thread = decay_row-IsThread t h.is_thread;
    runs_out =
        let e : (decay_row t).energy ≡ decay t.energy = ground (arith, high) in
        subst (IsSpent n) (sym e) h.runs_out;
  }
]

-- An archived row is left as it is.
archived-Ready : (n : ℕ) (t : Thread) → is_archived t.status ≡ true → Ready (suc n) t → Ready n t
archived-Ready n t old h = record {
  is_thread = h.is_thread;
  runs_out =
      IsSpent-none n t.energy h.is_thread.is_number (ground (arith, old, h.is_thread.none_left));
}

decay_rows-Ready :
    (n : ℕ) (d : Board) → All (λ r. Ready (suc n) r.1) d → All (λ r. Ready n r.1) (decay_rows d)
unfolding decay_rows
decay_rows-Ready n [] h = tt
decay_rows-Ready n ((m, t) ∷ d) h = elim (Bool-cases (is_archived t.status)) [
  | inl old ↦ rw old (archived-Ready n t old h.0, decay_rows-Ready n d h.1)
  | inr live ↦ rw live (decay_row-Ready n t h.0, decay_rows-Ready n d h.1)
]

decay_rows-IsQuiet : (d : Board) → All (λ r. Ready 1 r.1) d → IsQuiet (decay_rows d)
unfolding decay_rows decay_row IsQuiet
decay_rows-IsQuiet [] h = tt
decay_rows-IsQuiet ((m, t) ∷ d) h = (ground (arith, h.0.runs_out), decay_rows-IsQuiet d h.1)

respond-Ready :
    (n now m : ℕ) (d : Board)
    → All (λ r. Ready n r.1) d
    → All (λ r. Ready n r.1) (record_agent_response now m d)
unfolding record_agent_response answered
respond-Ready n now m d = All-update (Ready n) m (answered now) d (λ t k. record {
  is_thread = record {
    is_number = k.is_thread.is_number;
    at_most_full = k.is_thread.at_most_full;
    none_left = refl;
  };
  runs_out = k.runs_out;
})

heartbeat-Ready :
    (n : ℕ) (b : List (ℕ × ℕ)) (d : Board)
    → All (λ r. Ready (suc n) r.1) d
    → All (λ r. Ready n r.1) (heartbeat b d)
unfolding heartbeat decay_all
heartbeat-Ready n [] d h = decay_rows-Ready n d h
heartbeat-Ready n ((now, m) ∷ b) d h = heartbeat-Ready n b _ (respond-Ready (suc n) now m d h)

heartbeat-IsQuiet :
    (b : List (ℕ × ℕ)) (d : Board) → All (λ r. Ready 1 r.1) d → IsQuiet (heartbeat b d)
unfolding heartbeat decay_all
heartbeat-IsQuiet [] d h = decay_rows-IsQuiet d h
heartbeat-IsQuiet ((now, m) ∷ b) d h = heartbeat-IsQuiet b _ (respond-Ready 1 now m d h)

heartbeats-IsQuiet :
    (b : List (ℕ × ℕ)) (bs : List (List (ℕ × ℕ))) (d : Board)
    → All (λ r. Ready (length (b ∷ bs)) r.1) d
    → IsQuiet (heartbeats (b ∷ bs) d)
unfolding heartbeats
heartbeats-IsQuiet b [] d h = heartbeat-IsQuiet b d h
heartbeats-IsQuiet b (c ∷ bs) d h =
    heartbeats-IsQuiet c bs (heartbeat b d) (heartbeat-Ready (length (c ∷ bs)) b d h)

-- On a board whose energies lie between nothing and full, with none left to an archived thread, every
-- thread is archived after 36 or more heartbeats without a human comment, whatever the agents answer
-- to it in between.
pub heartbeats-archived :
    (bs : List (List (ℕ × ℕ))) (d : Board)
    → lifetime ≤ length bs
    → IsBoard d
    → All (λ r. is_archived r.1.status ≡ true) (heartbeats bs d)
unfolding IsQuiet
heartbeats-archived [] d long h = absurd (omega arith)
heartbeats-archived (b ∷ bs) d long h = heartbeats-IsQuiet b bs d (
    All-map (λ r. Ready (length (b ∷ bs)) r.1) d
      (λ r t. record {
        is_thread = t;
        runs_out =
            IsSpent-later (length (b ∷ bs) - lifetime) lifetime (length (b ∷ bs)) r.1.energy
              (omega arith) (IsThread-IsSpent r.1 t);
      })
      h)
