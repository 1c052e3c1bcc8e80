-- ===== src/Visa/Storage.antt =====
-- city/visa.py: `to_dict` and `from_dict`. The texts of times are what `isoformat` writes and
-- `fromisoformat` reads, which raises on any other text.
use agent_city.Prelude.{
  ◌>>=◌, ℕ, ◌≡◌, ◌≢◌, String, Option, none, some, if◌then◌else◌, arith, eq_iff, refl,
}
use agent_city.Prelude.Key.{◌==◌, text_key}
use agent_city.Visa.{
  Visa, VisaClass, temporary, worker, resident, citizen, revoked, VisaStatus, in_force, expired,
  withdrawn, suspended, VisaRestrictions, Digests, class_value, post_init,
}

pub record Calendar : Type 0 where
  pub isoformat : ℕ → String
  pub fromisoformat : String → Option ℕ

-- The dict, with the keys that `from_dict` reads by `get` as options.
pub record SavedVisa : Type 0 where
  pub agent_name : String
  pub visa_class : String
  pub issued_at : String
  pub expires_at : String
  pub sponsor : String
  pub status : String
  pub restrictions : VisaRestrictions
  pub visa_id : Option String
  pub sponsor_visa_id : Option String
  pub lineage_depth : Option ℕ
  pub remarks : Option String

abbrev pub status_value : VisaStatus → String
status_value in_force = "active"
status_value expired = "expired"
status_value withdrawn = "revoked"
status_value suspended = "suspended"

-- `VisaClass(value)`, which raises on another text.
unfoldable pub class_of : String → Option VisaClass
class_of value =
    if value == "temporary"
    then some temporary
    else if value == "worker"
    then some worker
    else if value == "resident"
    then some resident
    else if value == "citizen"
    then some citizen
    else if value == "revoked"
    then some revoked
    else none

unfoldable pub status_of : String → Option VisaStatus
status_of value =
    if value == "active"
    then some in_force
    else if value == "expired"
    then some expired
    else if value == "revoked"
    then some withdrawn
    else if value == "suspended"
    then some suspended
    else none

abbrev get {ℓ} : {A : Type ℓ} → Option A → A → A
get none default = default
get (some a) default = a

module _ (cal : Calendar) where
  unfoldable pub to_dict : Visa → SavedVisa
  to_dict v = record {
    agent_name = v.agent_name;
    visa_class = class_value v.visa_class;
    issued_at = cal.isoformat v.issued_at;
    expires_at = cal.isoformat v.expires_at;
    sponsor = v.sponsor;
    status = status_value v.status;
    restrictions = v.restrictions;
    visa_id = some v.visa_id;
    sponsor_visa_id = some v.sponsor_visa_id;
    lineage_depth = some v.lineage_depth;
    remarks = some v.remarks;
  }

  unfoldable pub from_dict : Digests → SavedVisa → Option Visa
  unfolding post_init class_of status_of
  from_dict ds saved = do
    visa_class ← class_of saved.visa_class
    issued_at ← cal.fromisoformat saved.issued_at
    expires_at ← cal.fromisoformat saved.expires_at
    status ← status_of saved.status
    some (
        post_init ds (record {
          agent_name = saved.agent_name;
          visa_class = visa_class;
          issued_at = issued_at;
          expires_at = expires_at;
          sponsor = saved.sponsor;
          status = status;
          restrictions = saved.restrictions;
          visa_id = get saved.visa_id "";
          sponsor_visa_id = get saved.sponsor_visa_id ds.mahamantra;
          lineage_depth = get saved.lineage_depth 0;
          remarks = get saved.remarks "";
        }))

  class_of-value : (c : VisaClass) → class_of (class_value c) ≡ some c
  unfolding class_of
  class_of-value temporary = refl
  class_of-value worker = refl
  class_of-value resident = refl
  class_of-value citizen = refl
  class_of-value revoked = refl

  status_of-value : (s : VisaStatus) → status_of (status_value s) ≡ some s
  unfolding status_of
  status_of-value in_force = refl
  status_of-value expired = refl
  status_of-value withdrawn = refl
  status_of-value suspended = refl

  -- Reading what was written of a visa that has an id gives the visa back, where the calendar reads
  -- back the times that it writes.
  pub from_dict-to_dict :
      (ds : Digests) (v : Visa)
      → ((t : ℕ) → cal.fromisoformat (cal.isoformat t) ≡ some t)
      → v.visa_id ≢ ""
      → from_dict ds (to_dict v) ≡ some v
  unfolding from_dict to_dict
  from_dict-to_dict ds v reads named = ground (
    arith,
    class_of-value v.visa_class,
    status_of-value v.status,
    reads v.issued_at,
    reads v.expires_at,
    eq_iff v.visa_id "",
  )
