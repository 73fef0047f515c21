-- ===== src/Service/Simple/State.antt =====
-- The state of `SimpleIppService` in service/simple.rs and the operations on it: the job counter,
-- the snapshot of jobs, and the cells that hold the jobs.
use ippper_rs.Prelude.{
  ℕ, ℤ, pos, ◌+◌, String, Option, none, some, [], and_then, if◌then◌else◌, eqb, wrapping_inc,
}
use ippper_rs.Ipp.Enums.{
  operation_attributes, pending, client_error_not_found, client_error_document_format_not_supported,
}
use ippper_rs.Ipp.Value.{no_value}
use ippper_rs.Ipp.Attributes.{IppAttributes}
use ippper_rs.Ipp.External.{External, Snapshot}
use ippper_rs.Error.{Result, ok, err, status_error}
use ippper_rs.Utils.{get_ipp_attribute, take_ipp_attribute, contains}
use ippper_rs.Service.Simple.Info.{PrinterInfo, JobInfo}

-- An `RwLock<JobInfo>` is a handle to a cell, which the snapshot and the requests at work share:
-- `cells` holds the jobs, of which the first `allocated` are in use.
pub record SimpleIppService : Type 0 where
  pub job_id : ℤ
  pub job_snapshot : Snapshot
  pub cells : ℕ → JobInfo
  pub allocated : ℕ
  pub host : String
  pub basepath : String
  pub info : PrinterInfo

-- The content of a cell that is not in use.
abbrev pub unallocated : JobInfo
unallocated = record {
  id = pos 0;
  uuid = 0;
  state = pending;
  state_message = "";
  state_reasons = no_value;
  attributes = record {
    originating_user_name = "";
    media = "";
    orientation = none;
    sides = "";
    print_color_mode = "";
    printer_resolution = none;
  };
  created_at = record { secs = 0; nanos = 0 };
  processing_at = none;
  completed_at = none;
}

-- `SimpleIppService::new`, and its setters.
unfoldable pub new : PrinterInfo → SimpleIppService
new info = record {
  job_id = pos 1000;
  job_snapshot = [];
  cells = λ h. unallocated;
  allocated = 0;
  host = "defaulthost:631";
  basepath = "/";
  info = info;
}

unfoldable pub set_host : SimpleIppService → String → SimpleIppService
set_host s host = record s { host = host }

unfoldable pub set_basepath : SimpleIppService → String → SimpleIppService
set_basepath s basepath = record s { basepath = basepath }

unfoldable pub set_info : SimpleIppService → PrinterInfo → SimpleIppService
set_info s info = record s { info = info }

-- A write to a cell.
abbrev pub update : (ℕ → JobInfo) → ℕ → JobInfo → ℕ → JobInfo
update cells h job i = if eqb i h then job else cells i

abbrev pub write_job : ℕ → JobInfo → SimpleIppService → SimpleIppService
write_job h job s = record s { cells = update s.cells h job }

module _ {P : Type 0} (ext : External P) where
  -- The new handle and the state after it.
  unfoldable pub alloc_job : (ℤ → JobInfo) → SimpleIppService → ℕ × SimpleIppService
  alloc_job init s =
      let id = s.job_id in
      (
        s.allocated,
        record s {
          job_id = wrapping_inc id;
          job_snapshot = ext.cache_insert s.job_snapshot id s.allocated;
          cells = update s.cells s.allocated (init id);
          allocated = s.allocated + 1;
        },
      )

  unfoldable pub find_job : SimpleIppService → IppAttributes → Result ℕ
  find_job s r =
      let job_id =
        and_then (get_ipp_attribute ext r operation_attributes ext.names.job_id) ext.as_integer in
      let job = and_then job_id (ext.cache_get s.job_snapshot) in
      elim job [ some h ↦ ok h | none ↦ err (status_error ext client_error_not_found) ]

  -- The format, or an error if the printer does not support it; and the attributes that are left.
  unfoldable pub take_document_format :
      PrinterInfo → IppAttributes → Result (Option String) × IppAttributes
  take_document_format info r =
      let (attr, left) = take_ipp_attribute r operation_attributes "document-format" in
      (
        elim (and_then attr ext.into_mime_media_type) [
          | none ↦ ok none
          | some x ↦
              if contains info.document_format_supported x
              then ok (some x)
              else err (status_error ext client_error_document_format_not_supported)
        ],
        left,
      )
