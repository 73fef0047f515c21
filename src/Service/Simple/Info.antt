-- ===== src/Service/Simple/Info.antt =====
-- The data of service/simple.rs: documents, job attributes, the printer's description with the
-- defaults of its builder, and jobs.
use ippper_rs.Prelude.{
  ℕ, ℤ, String, Bool, true, Option, none, some, List, [], ◌∷◌, and_then, unwrap_or, or_else,
}
use ippper_rs.Ipp.Enums.{JobState, job_attributes}
use ippper_rs.Ipp.Value.{IppValue}
use ippper_rs.Ipp.Attributes.{IppAttributes}
use ippper_rs.Ipp.External.{External}
use ippper_rs.Model.{
  PageOrientation, portrait, Resolution, converted?, orientation_of_value, resolution_of_value,
}
use ippper_rs.Utils.{take_ipp_attribute}

pub record SimpleIppJobAttributes : Type 0 where
  pub originating_user_name : String
  pub media : String
  pub orientation : Option PageOrientation
  pub sides : String
  pub print_color_mode : String
  pub printer_resolution : Option Resolution

pub record SimpleIppDocument (P : Type 0) : Type 0 where
  pub format : Option String
  pub job_attributes : SimpleIppJobAttributes
  pub payload : P

-- A UUID is the number that it is.
pub record PrinterInfo : Type 0 where
  pub name : String
  pub info : Option String
  pub make_and_model : Option String
  pub dnssd_name : Option String
  pub uuid : Option ℕ
  pub color_supported : Bool
  pub document_format_supported : List String
  pub document_format_default : String
  pub document_format_preferred : Option String
  pub media_supported : List String
  pub media_default : String
  pub orientation_supported : List PageOrientation
  pub orientation_default : Option PageOrientation
  pub sides_supported : List String
  pub sides_default : String
  pub print_color_mode_supported : List String
  pub print_color_mode_default : String
  pub printer_resolution_supported : List Resolution
  pub printer_resolution_default : Option Resolution
  pub pdf_versions_supported : List String
  pub urf_supported : List String
  pub pwg_raster_document_type_supported : List String
  pub pwg_raster_document_resolution_supported : List Resolution
  pub pwg_raster_document_sheet_back : Option String

-- What `PrinterInfoBuilder` builds with nothing set.
abbrev pub default_info : PrinterInfo
default_info = record {
  name = "IppServer";
  info = some "IppServer by ippper";
  make_and_model = some "IppServer by ippper";
  dnssd_name = none;
  uuid = none;
  color_supported = true;
  document_format_supported = "application/pdf" ∷ [];
  document_format_default = "application/pdf";
  document_format_preferred = some "application/pdf";
  media_supported = "iso_a4_210x297mm" ∷ [];
  media_default = "iso_a4_210x297mm";
  orientation_supported = portrait ∷ [];
  orientation_default = none;
  sides_supported = "one-sided" ∷ [];
  sides_default = "one-sided";
  print_color_mode_supported = "monochrome" ∷ "color" ∷ [];
  print_color_mode_default = "monochrome";
  printer_resolution_supported = [];
  printer_resolution_default = none;
  pdf_versions_supported =
      "adobe-1.2" ∷ "adobe-1.3" ∷ "adobe-1.4" ∷ "adobe-1.5" ∷ "adobe-1.6" ∷ "adobe-1.7"
      ∷ "iso-19005-1_2005" ∷ "iso-32000-1_2008" ∷ "pwg-5102.3" ∷ [];
  urf_supported = [];
  pwg_raster_document_type_supported = [];
  pwg_raster_document_resolution_supported = [];
  pwg_raster_document_sheet_back = none;
}

-- `std::time::Duration`.
pub record Duration : Type 0 where
  pub secs : ℕ
  pub nanos : ℕ

pub record JobInfo : Type 0 where
  pub id : ℤ
  pub uuid : ℕ
  pub state : JobState
  pub state_message : String
  pub state_reasons : IppValue
  pub attributes : SimpleIppJobAttributes
  pub created_at : Duration
  pub processing_at : Option Duration
  pub completed_at : Option Duration

module _ {P : Type 0} (ext : External P) (info : PrinterInfo) where
  -- `SimpleIppJobAttributes::take_ipp_attributes`: each attribute that is asked for and of the right
  -- syntax, and otherwise the printer's default.
  unfoldable pub take_ipp_attributes :
      String → IppAttributes → SimpleIppJobAttributes × IppAttributes
  take_ipp_attributes user r =
      let (media, r₁) = take_ipp_attribute r job_attributes "media" in
      let (orientation, r₂) = take_ipp_attribute r₁ job_attributes "orientation-requested" in
      let (sides, r₃) = take_ipp_attribute r₂ job_attributes "sides" in
      let (color_mode, r₄) = take_ipp_attribute r₃ job_attributes "print-color-mode" in
      let (resolution, r₅) = take_ipp_attribute r₄ job_attributes "printer-resolution" in
      (
        record {
          originating_user_name = user;
          media = unwrap_or (and_then media ext.into_keyword) info.media_default;
          orientation =
              or_else (and_then orientation (λ v. converted? (orientation_of_value v)))
                info.orientation_default;
          sides = unwrap_or (and_then sides ext.into_keyword) info.sides_default;
          print_color_mode =
              unwrap_or (and_then color_mode ext.into_keyword) info.print_color_mode_default;
          printer_resolution =
              or_else (and_then resolution (λ v. converted? (resolution_of_value v)))
                info.printer_resolution_default;
        },
        r₅,
      )
