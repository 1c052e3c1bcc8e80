-- ===== src/Visa/Lifecycle.antt =====
-- When a visa is valid, and what its issue, revocation and upgrade leave of it.
use agent_city.Prelude.{
  ℕ, ◌+◌, ◌*◌, ◌≡◌, ◌≢◌, String, Bool, true, false, ◌&&◌, none, some, leb, ltb, arith, eq_iff,
}
use agent_city.Prelude.Int.{pos, ltb_ℤ}
use agent_city.Prelude.Key.{text_key}
use agent_city.Visa.{
  Visa, VisaClass, revoked, Digests, Issue, issue_visa, revoke_visa, is_valid, days_remaining, day,
  duration_of, restrictions_of, post_init,
}

-- Digests are not empty.
abbrev pub HasIds : Digests → Type 0
HasIds ds = (name : String) (t : ℕ) (sponsor : String) → ds.visa_digest name t sponsor ≢ ""

abbrev pub is_admitted : VisaClass → Bool
is_admitted revoked = false
is_admitted _ = true

abbrev pub days_of : Issue → ℕ
days_of i = elim i.duration_days [ none ↦ duration_of i.visa_class | some d ↦ d ]

module _ (ds : Digests) where
  -- A visa that is issued is valid from its issue for as many days as the caller or else its class
  -- says, to the microsecond, if its class is not that of banned agents; and one of that class never.
  pub issue_visa-valid :
      (i : Issue) (now : ℕ)
      → is_valid now (issue_visa ds i) ≡ (
          is_admitted i.visa_class
          && leb i.issued_at now
          && leb now (i.issued_at + day * days_of i))
  unfolding is_valid issue_visa post_init
  issue_visa-valid i now = ground arith

  -- A revoked visa is valid at no time and has the rights of a banned agent, under the same id and
  -- with the same lineage, whatever visa it was, of an id that is not empty.
  pub revoke_visa-never_valid :
      (at now : ℕ) (reason : String) (v : Visa)
      → v.visa_id ≢ ""
      → (is_valid now (revoke_visa ds at reason v) ≡ false)
        × ((revoke_visa ds at reason v).restrictions ≡ restrictions_of revoked)
        × ((revoke_visa ds at reason v).visa_id ≡ v.visa_id)
        × ((revoke_visa ds at reason v).sponsor_visa_id ≡ v.sponsor_visa_id)
        × ((revoke_visa ds at reason v).lineage_depth ≡ v.lineage_depth)
  unfolding is_valid revoke_visa post_init
  revoke_visa-never_valid at now reason v named = (
    ground (arith, eq_iff v.visa_id ""),
    ground (arith, eq_iff v.visa_id ""),
    ground (arith, eq_iff v.visa_id ""),
    ground (arith, eq_iff v.visa_id ""),
    ground (arith, eq_iff v.visa_id ""),
  )

-- The days that remain are negative exactly once the visa has run out.
pub days_remaining-negative :
    (now : ℕ) (v : Visa) → ltb_ℤ (days_remaining now v) (pos 0) ≡ ltb v.expires_at now
unfolding days_remaining
days_remaining-negative now v = ground arith
