-- ===== src/Service/Simple/FindJob.antt =====
-- `find_job` of service/simple.rs, by the job that a request names.
use ippper_rs.Prelude.{ℕ, ◌≡◌, refl, ap, ◌∙◌, Option, none, some, and_then}
use ippper_rs.Ipp.Enums.{operation_attributes, client_error_not_found}
use ippper_rs.Ipp.Value.{integer?}
use ippper_rs.Ipp.Attributes.{IppRequestResponse}
use ippper_rs.Ipp.External.{External, Documented}
use ippper_rs.Error.{Result, ok, err, status_error}
use ippper_rs.Utils.{get_ipp_attribute}
use ippper_rs.Service.Simple.State.{SimpleIppService, find_job}
use ippper_rs.Service.Simple.Accepted.{named_job}

module _ {P : Type 0} {ext : External P} (doc : Documented ext) where
  abbrev pub found : Option ℕ → Result ℕ
  found none = err (status_error ext client_error_not_found)
  found (some h) = ok h

  integer-accessor : ext.as_integer ≡ integer?
  integer-accessor = λ i v. doc.as_integer_lem v i

  pub find_job-named :
      (req : IppRequestResponse P) (s : SimpleIppService)
      → find_job ext s req.attributes ≡ found (named_job ext s req)
  unfolding find_job
  find_job-named req s =
      let attr = get_ipp_attribute ext req.attributes operation_attributes ext.names.job_id in
      let same : and_then (and_then attr ext.as_integer) (ext.cache_get s.job_snapshot)
          ≡ named_job ext s req =
        ap (λ f. and_then (and_then attr f) (ext.cache_get s.job_snapshot)) integer-accessor in
      ap (λ o. elim o [ some h ↦ ok h | none ↦ err (status_error ext client_error_not_found) ]) same
      ∙ found_elim (named_job ext s req)
    where
      found_elim :
          (o : Option ℕ)
          → elim o [ some h ↦ ok h | none ↦ err (status_error ext client_error_not_found) ]
            ≡ found o
      found_elim none = refl
      found_elim (some h) = refl
