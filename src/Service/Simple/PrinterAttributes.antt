-- ===== src/Service/Simple/PrinterAttributes.antt =====
-- `SimpleIppService::printer_attributes` of service/simple.rs: the attributes that describe the
-- printer, in the order of the source.
use ippper_rs.Prelude.{
  String, Bool, true, false, Option, List, [], ◌∷◌, ◌++◌, ◌==◌, map, map_option, map_or,
  if◌then◌else◌, to_i32,
}
use ippper_rs.Ipp.Enums.{
  Operation, print_job, validate_job, create_job, send_document, cancel_job, get_job_attributes,
  get_jobs, get_printer_attributes,
}
use ippper_rs.Ipp.Value.{
  IppValue, integer, enum, boolean, keyword, charset, natural_language, uri, mime_media_type,
  name_without_language, text_without_language, no_value, array,
}
use ippper_rs.Ipp.Attributes.{IppAttribute}
use ippper_rs.Ipp.Http.{ReqParts}
use ippper_rs.Ipp.External.{External}
use ippper_rs.Model.{orientation_value, resolution_value}
use ippper_rs.Service.Simple.Info.{PrinterInfo, Duration}
use ippper_rs.Service.Simple.Url.{make_url}
use ippper_rs.Service.Simple.Render.{
  Entry, add_if_requested, optional_add_if_requested, add_unless_empty, description, template,
  push_all,
}

abbrev pub is_nil : {A : Type 0} → List A → Bool
is_nil [] = true
is_nil (x ∷ xs) = false

-- The operations that the printer says it supports.
abbrev pub supported_operations : List Operation
supported_operations =
    print_job ∷ validate_job ∷ create_job ∷ send_document ∷ cancel_job ∷ get_job_attributes
    ∷ get_jobs ∷ get_printer_attributes ∷ []

-- The values of `which-jobs` that the printer says it supports.
abbrev pub supported_which_jobs : List String
supported_which_jobs =
    "completed" ∷ "not-completed" ∷ "aborted" ∷ "all" ∷ "canceled" ∷ "pending" ∷ "pending-held"
    ∷ "processing" ∷ "processing-stopped" ∷ []

-- The compressions that the printer says it supports.
abbrev pub supported_compressions : List String
supported_compressions = "none" ∷ "gzip" ∷ []

-- The value of `uri-security-supported`.
unfoldable pub uri_security : Option String → String
uri_security scheme =
    map_or scheme "none"
      (λ s. if s == "ipps" then "tls" else if s == "https" then "tls" else "none")

-- The value of `job-creation-attributes-supported`.
abbrev job_creation_attributes : Bool → List IppValue
job_creation_attributes no_resolutions =
    let common =
      keyword "job-name"
      ∷ keyword "media"
      ∷ keyword "orientation-requested"
      ∷ keyword "print-color-mode"
      ∷ keyword "sides"
      ∷ [] in
    if no_resolutions then common else common ++ keyword "printer-resolution" ∷ []

module _ {P : Type 0} (ext : External P) where
  -- Up to the supported compressions.
  abbrev state_entries : String → String → PrinterInfo → ReqParts → Duration → List Entry
  state_entries host basepath info head uptime =
      add_if_requested description ext.names.printer_uri_supported
        (uri (make_url host basepath head "/"))
      ∷ add_if_requested description ext.names.uri_authentication_supported
          (keyword "requesting-user-name")
      ∷ add_if_requested description ext.names.uri_security_supported
          (keyword (uri_security head.scheme))
      ∷ add_if_requested description ext.names.printer_name (name_without_language info.name)
      ∷ add_if_requested description ext.names.printer_state (enum ext.printer_idle_code)
      ∷ add_if_requested description ext.names.printer_state_reasons (keyword "none")
      ∷ add_if_requested description ext.names.ipp_versions_supported
          (array (keyword "1.0" ∷ keyword "1.1" ∷ keyword "2.0" ∷ []))
      ∷ add_if_requested description ext.names.operations_supported
          (array (map (λ op. enum (ext.operation_code op)) supported_operations))
      ∷ add_if_requested description ext.names.color_supported (boolean info.color_supported)
      ∷ add_if_requested description "which-jobs-supported"
          (array (map keyword supported_which_jobs))
      ∷ add_if_requested description "multiple-document-jobs-supported" (boolean false)
      ∷ add_if_requested description ext.names.charset_configured (charset "utf-8")
      ∷ add_if_requested description ext.names.charset_supported (charset "utf-8")
      ∷ add_if_requested description ext.names.natural_language_configured (natural_language "en")
      ∷ add_if_requested description ext.names.generated_natural_language_supported
          (natural_language "en")
      ∷ add_if_requested description ext.names.document_format_default
          (mime_media_type info.document_format_default)
      ∷ add_if_requested description ext.names.document_format_supported
          (array (map mime_media_type info.document_format_supported))
      ∷ add_if_requested description ext.names.printer_is_accepting_jobs (boolean true)
      ∷ add_if_requested description ext.names.pdl_override_supported (keyword "attempted")
      ∷ add_if_requested description ext.names.printer_up_time (integer (to_i32 uptime.secs))
      ∷ add_if_requested description ext.names.compression_supported
          (array (map keyword supported_compressions))
      ∷ []

  -- The defaults and the supported values of the job template, up to the resolutions.
  abbrev template_entries : PrinterInfo → List Entry
  template_entries info =
      add_if_requested template ext.names.media_default (keyword info.media_default)
      ∷ add_if_requested template ext.names.media_supported
          (array (map keyword info.media_supported))
      ∷ add_if_requested template ext.names.orientation_requested_default
          (map_or info.orientation_default no_value orientation_value)
      ∷ add_if_requested template ext.names.orientation_requested_supported
          (array (map orientation_value info.orientation_supported))
      ∷ add_if_requested template ext.names.sides_default (keyword info.sides_default)
      ∷ add_if_requested template ext.names.sides_supported
          (array (map keyword info.sides_supported))
      ∷ add_if_requested template ext.names.print_color_mode_default
          (keyword info.print_color_mode_default)
      ∷ add_if_requested template ext.names.print_color_mode_supported
          (array (map keyword info.print_color_mode_supported))
      ∷ optional_add_if_requested description "document-format-preferred"
          (map_option mime_media_type info.document_format_preferred)
      ∷ add_unless_empty (is_nil info.printer_resolution_supported) template
          ext.names.printer_resolution_supported
          (array (map resolution_value info.printer_resolution_supported))
      ∷ optional_add_if_requested template ext.names.printer_resolution_default
          (map_option resolution_value info.printer_resolution_default)
      ∷ []

  -- The rest, from the PDF versions.
  abbrev optional_entries : PrinterInfo → List Entry
  optional_entries info =
      add_unless_empty (is_nil info.pdf_versions_supported) description "pdf-versions-supported"
        (array (map keyword info.pdf_versions_supported))
      ∷ add_unless_empty (is_nil info.urf_supported) description "urf-supported"
          (array (map keyword info.urf_supported))
      ∷ add_unless_empty (is_nil info.pwg_raster_document_type_supported) description
          "pwg-raster-document-type-supported"
          (array (map keyword info.pwg_raster_document_type_supported))
      ∷ add_unless_empty (is_nil info.pwg_raster_document_resolution_supported) description
          "pwg-raster-document-resolution-supported"
          (array (map resolution_value info.pwg_raster_document_resolution_supported))
      ∷ optional_add_if_requested description "pwg-raster-document-sheet-back"
          (map_option keyword info.pwg_raster_document_sheet_back)
      ∷ add_if_requested description "job-creation-attributes-supported"
          (array (job_creation_attributes (is_nil info.printer_resolution_supported)))
      ∷ optional_add_if_requested description ext.names.printer_info
          (map_option text_without_language info.info)
      ∷ optional_add_if_requested description ext.names.printer_make_and_model
          (map_option text_without_language info.make_and_model)
      ∷ optional_add_if_requested description "printer-dns-sd-name"
          (map_option name_without_language info.dnssd_name)
      ∷ optional_add_if_requested description "printer-uuid"
          (map_option (λ u. uri (ext.urn u)) info.uuid)
      ∷ []

  abbrev pub printer_entries : String → String → PrinterInfo → ReqParts → Duration → List Entry
  printer_entries host basepath info head uptime =
      state_entries host basepath info head uptime ++ template_entries info ++ optional_entries info

  unfoldable pub printer_attributes :
      String → String → PrinterInfo → ReqParts → Duration → List String → List IppAttribute
  printer_attributes host basepath info head uptime requested =
      push_all "printer-description" requested [] (printer_entries host basepath info head uptime)
