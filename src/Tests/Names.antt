-- ===== src/Tests/Names.antt =====
-- The names of attributes that the ipp crate defines.
use ippper_rs.Ipp.External.{Names}

abbrev pub names : Names
names = record {
  status_message = "status-message";
  requested_attributes = "requested-attributes";
  attributes_charset = "attributes-charset";
  attributes_natural_language = "attributes-natural-language";
  printer_uri_supported = "printer-uri-supported";
  uri_authentication_supported = "uri-authentication-supported";
  uri_security_supported = "uri-security-supported";
  printer_name = "printer-name";
  printer_state = "printer-state";
  printer_state_reasons = "printer-state-reasons";
  ipp_versions_supported = "ipp-versions-supported";
  operations_supported = "operations-supported";
  color_supported = "color-supported";
  charset_configured = "charset-configured";
  charset_supported = "charset-supported";
  natural_language_configured = "natural-language-configured";
  generated_natural_language_supported = "generated-natural-language-supported";
  document_format_default = "document-format-default";
  document_format_supported = "document-format-supported";
  printer_is_accepting_jobs = "printer-is-accepting-jobs";
  pdl_override_supported = "pdl-override-supported";
  printer_up_time = "printer-up-time";
  compression_supported = "compression-supported";
  media_default = "media-default";
  media_supported = "media-supported";
  orientation_requested_default = "orientation-requested-default";
  orientation_requested_supported = "orientation-requested-supported";
  sides_default = "sides-default";
  sides_supported = "sides-supported";
  print_color_mode_default = "print-color-mode-default";
  print_color_mode_supported = "print-color-mode-supported";
  printer_resolution_supported = "printer-resolution-supported";
  printer_resolution_default = "printer-resolution-default";
  printer_info = "printer-info";
  printer_make_and_model = "printer-make-and-model";
  job_uri = "job-uri";
  job_id = "job-id";
  job_state = "job-state";
  job_state_reasons = "job-state-reasons";
  job_name = "job-name";
}
