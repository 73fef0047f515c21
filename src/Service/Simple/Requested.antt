-- ===== src/Service/Simple/Requested.antt =====
-- `SimpleIppJobAttributes::take_ipp_attributes` as a reading of the request: taking attributes one
-- after the other is looking each of them up.
use ippper_rs.Prelude.{String, ◌≡◌, false, ◌==◌, and_then, unwrap_or, or_else, arith}
use ippper_rs.Ipp.Enums.{DelimiterTag, job_attributes, same_tag}
use ippper_rs.Ipp.Value.{keyword?}
use ippper_rs.Ipp.Attributes.{IppAttributes, find_value}
use ippper_rs.Ipp.External.{External, Documented}
use ippper_rs.Model.{converted?, orientation_of_value, resolution_of_value}
use ippper_rs.Utils.{get_ipp_attribute, take_ipp_attribute}
use ippper_rs.Utils.Lookup.{take-value, take-other, get_ipp_attribute-eq-find_value}
use ippper_rs.Service.Simple.Info.{PrinterInfo, SimpleIppJobAttributes, take_ipp_attributes}

module _ {P : Type 0} (ext : External P) (info : PrinterInfo) where
  -- Each attribute looked up in the request as it came.
  abbrev pub requested_job_attributes : String → IppAttributes → SimpleIppJobAttributes
  requested_job_attributes user r = record {
    originating_user_name = user;
    media =
        unwrap_or (and_then (get_ipp_attribute ext r job_attributes "media") keyword?)
          info.media_default;
    orientation =
        or_else
          (and_then (get_ipp_attribute ext r job_attributes "orientation-requested")
            (λ v. converted? (orientation_of_value v)))
          info.orientation_default;
    sides =
        unwrap_or (and_then (get_ipp_attribute ext r job_attributes "sides") keyword?)
          info.sides_default;
    print_color_mode =
        unwrap_or (and_then (get_ipp_attribute ext r job_attributes "print-color-mode") keyword?)
          info.print_color_mode_default;
    printer_resolution =
        or_else
          (and_then (get_ipp_attribute ext r job_attributes "printer-resolution")
            (λ v. converted? (resolution_of_value v)))
          info.printer_resolution_default;
  }

-- Taking a job attribute by one name leaves a lookup by another.
take-job :
    (r : IppAttributes) (n m : String)
    → (n == m) ≡ false
    → find_value (take_ipp_attribute r job_attributes n).1.groups job_attributes m
      ≡ find_value r.groups job_attributes m
take-job r n m h = take-other r job_attributes job_attributes n m h

-- Taking job attributes leaves the lookups of another tag.
take-tag :
    (r : IppAttributes) (t : DelimiterTag) (n m : String)
    → same_tag job_attributes t ≡ false
    → find_value (take_ipp_attribute r job_attributes n).1.groups t m ≡ find_value r.groups t m
take-tag r t n m h = take-other r job_attributes t n m (ground arith)

module _ {P : Type 0} {ext : External P} (doc : Documented ext) where
  pub keyword-accessor : ext.into_keyword ≡ keyword?
  keyword-accessor = λ i v. doc.into_keyword_lem v i

  -- The job attributes of a request are, for each attribute, the first one filed under its name
  -- among the job attributes of the request if it has the right syntax, and otherwise the
  -- printer's default; and taking them leaves every attribute of another tag in place.
  pub take_ipp_attributes-requested :
      (info : PrinterInfo) (user : String) (r : IppAttributes) (t : DelimiterTag) (n : String)
      → same_tag job_attributes t ≡ false
      → ((take_ipp_attributes ext info user r).0 ≡ requested_job_attributes ext info user r)
        × (get_ipp_attribute ext (take_ipp_attributes ext info user r).1 t n
            ≡ get_ipp_attribute ext r t n)
  unfolding take_ipp_attributes
  take_ipp_attributes-requested info user r t n h = (
    simp (keyword-accessor, get_ipp_attribute-eq-find_value doc, take-value, take-job),
    simp (get_ipp_attribute-eq-find_value doc, take-tag, h),
  )
