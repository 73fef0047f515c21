-- ===== src/Service/Simple/JobAttributes.antt =====
-- `lite_job_attributes_for` and `job_attributes_for` of service/simple.rs: the attributes that
-- describe a job.
use ippper_rs.Prelude.{String, List, [], ◌∷◌, map_option, map_or, to_i32, show_i32, concat}
use ippper_rs.Ipp.Value.{
  IppValue, integer, enum, keyword, uri, name_without_language, text_without_language, no_value,
}
use ippper_rs.Ipp.Attributes.{IppAttribute, attribute}
use ippper_rs.Ipp.Http.{ReqParts}
use ippper_rs.Ipp.External.{External}
use ippper_rs.Model.{orientation_value, resolution_value}
use ippper_rs.Service.Simple.Info.{JobInfo, Duration}
use ippper_rs.Service.Simple.Url.{make_url}
use ippper_rs.Service.Simple.Render.{
  Entry, add_if_requested, optional_add_if_requested, description, template, push_all,
}

-- `IppValue::Integer(x.as_secs() as i32)`.
abbrev pub seconds : Duration → IppValue
seconds d = integer (to_i32 d.secs)

module _ {P : Type 0} (ext : External P) (host basepath : String) where
  -- The URI of a job.
  unfoldable pub job_uri : ReqParts → JobInfo → String
  unfolding show_i32
  job_uri head job = make_url host basepath head (concat "job/" (show_i32 job.id))

  unfoldable pub lite_job_attributes_for : ReqParts → JobInfo → List IppAttribute
  unfolding job_uri
  lite_job_attributes_for head job =
      attribute ext.names.job_uri (uri (job_uri head job))
      ∷ attribute ext.names.job_id (integer job.id)
      ∷ attribute ext.names.job_state (enum (ext.job_state_code job.state))
      ∷ attribute "job-state-message" (text_without_language job.state_message)
      ∷ attribute ext.names.job_state_reasons job.state_reasons
      ∷ []

  abbrev pub job_entries : ReqParts → JobInfo → Duration → List Entry
  job_entries head job uptime =
      add_if_requested description ext.names.job_uri (uri (job_uri head job))
      ∷ add_if_requested description ext.names.job_id (integer job.id)
      ∷ add_if_requested description "job-uuid" (uri (ext.urn job.uuid))
      ∷ add_if_requested description ext.names.job_state (enum (ext.job_state_code job.state))
      ∷ add_if_requested description "job-state-message" (text_without_language job.state_message)
      ∷ add_if_requested description ext.names.job_state_reasons job.state_reasons
      ∷ add_if_requested description "job-printer-uri" (uri (make_url host basepath head ""))
      ∷ add_if_requested description ext.names.job_name
          (name_without_language (concat "Job #" (show_i32 job.id)))
      ∷ add_if_requested description "job-originating-user-name"
          (name_without_language job.attributes.originating_user_name)
      ∷ add_if_requested description "time-at-creation" (seconds job.created_at)
      ∷ add_if_requested description "time-at-processing"
          (map_or job.processing_at no_value seconds)
      ∷ add_if_requested description "time-at-completed" (map_or job.completed_at no_value seconds)
      ∷ add_if_requested description "job-printer-up-time" (seconds uptime)
      ∷ add_if_requested template "media" (keyword job.attributes.media)
      ∷ add_if_requested template "orientation-requested"
          (map_or job.attributes.orientation no_value orientation_value)
      ∷ add_if_requested template "sides" (keyword job.attributes.sides)
      ∷ add_if_requested template "print-color-mode" (keyword job.attributes.print_color_mode)
      ∷ optional_add_if_requested template "printer-resolution"
          (map_option resolution_value job.attributes.printer_resolution)
      ∷ []

  unfoldable pub job_attributes_for :
      ReqParts → JobInfo → List String → Duration → List IppAttribute
  job_attributes_for head job requested uptime =
      push_all "job-description" requested [] (job_entries head job uptime)
