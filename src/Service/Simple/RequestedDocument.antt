-- ===== src/Service/Simple/RequestedDocument.antt =====
-- The document that a request asks service/simple.rs to print, read off the request as it came.
use ippper_rs.Prelude.{
  ◌&&◌, String, Bool, true, false, ◌≡◌, refl, sym, ap, ◌∙◌, inl, inr, ◌==◌, Option, none, some,
  and_then, unwrap_or, map_or, if◌then◌else◌, Bool-cases,
}
use ippper_rs.Ipp.Enums.{
  DelimiterTag, operation_attributes, job_attributes, same_tag,
  client_error_document_format_not_supported,
}
use ippper_rs.Ipp.Value.{keyword?, mime_media_type?}
use ippper_rs.Ipp.Attributes.{IppAttributes, find_value}
use ippper_rs.Ipp.External.{External, Documented}
use ippper_rs.Error.{Result, ok, err, ◌>>=◌, status_error}
use ippper_rs.Utils.{
  get_ipp_attribute, take_ipp_attribute, take_requesting_user_name, user_name, contains,
  decommpress_payload,
}
use ippper_rs.Utils.Lookup.{take-value, take-other, get_ipp_attribute-eq-find_value}
use ippper_rs.Service.Simple.Info.{
  PrinterInfo, SimpleIppJobAttributes, SimpleIppDocument, take_ipp_attributes,
}
use ippper_rs.Service.Simple.State.{take_document_format}
use ippper_rs.Service.Simple.Documents.{prepare_document}
use ippper_rs.Service.Simple.Requested.{
  requested_job_attributes, take_ipp_attributes-requested, keyword-accessor,
}

module _ {P : Type 0} (ext : External P) where
  -- The payload, if it can be unpacked.
  abbrev pub with_payload :
      Option String → SimpleIppJobAttributes → Result P → Result (SimpleIppDocument P)
  with_payload format attrs (err e) = err e
  with_payload format attrs (ok payload) =
      ok (record { format = format; job_attributes = attrs; payload = payload })

  abbrev pub supports : PrinterInfo → Option String → Bool
  supports info format = map_or format true (contains info.document_format_supported)

  -- The document for a format and a compression.
  abbrev pub document_for :
      PrinterInfo
      → SimpleIppJobAttributes
      → P
      → Option String
      → Option String
      → Result (SimpleIppDocument P)
  document_for info attrs payload format compression =
      if supports info format
      then with_payload format attrs (decommpress_payload ext payload compression)
      else err (status_error ext client_error_document_format_not_supported)

  -- The document of a request.
  abbrev pub requested_document :
      PrinterInfo → SimpleIppJobAttributes → IppAttributes → P → Result (SimpleIppDocument P)
  requested_document info attrs r payload =
      document_for info attrs payload
        (and_then (get_ipp_attribute ext r operation_attributes "document-format") mime_media_type?)
        (and_then (get_ipp_attribute ext r operation_attributes "compression") keyword?)

  abbrev pub requested_user_name : IppAttributes → String
  requested_user_name r =
      unwrap_or
        (and_then (get_ipp_attribute ext r operation_attributes "requesting-user-name") user_name)
        "anonymous"

-- Taking the document format leaves the compression.
take-format :
    (r : IppAttributes)
    → find_value
        (take_ipp_attribute r operation_attributes "document-format").1.groups
        operation_attributes
        "compression"
      ≡ find_value r.groups operation_attributes "compression"
take-format r = take-other r operation_attributes operation_attributes _ _ refl

module _ {P : Type 0} (ext : External P) (info : PrinterInfo) (attrs : SimpleIppJobAttributes)
    (payload : P) where
  -- The order of the tests in the source.
  abbrev prepared : Option String → Option String → Result (SimpleIppDocument P)
  prepared format compression = do
    format ← elim format [
      | none ↦ ok none
      | some x ↦
          if contains info.document_format_supported x
          then ok (some x)
          else err (status_error ext client_error_document_format_not_supported)
    ]
    payload ← decommpress_payload ext payload compression
    ok (record { format = format; job_attributes = attrs; payload = payload })

  unpacked :
      (format : Option String) (r : Result P)
      → (r >>= (λ p. ok (record { format = format; job_attributes = attrs; payload = p })))
        ≡ with_payload ext format attrs r
  unpacked format (ok p) = refl
  unpacked format (err e) = refl

  prepared-document_for :
      (format compression : Option String)
      → prepared format compression ≡ document_for ext info attrs payload format compression
  prepared-document_for none compression = unpacked none _
  prepared-document_for (some x) compression =
      elim (Bool-cases (contains info.document_format_supported x)) [
        | inl fits ↦ rw fits (unpacked (some x) _)
        | inr unfit ↦ rw unfit refl
      ]

module _ {P : Type 0} {ext : External P} (doc : Documented ext) where
  mime-accessor : ext.into_mime_media_type ≡ mime_media_type?
  mime-accessor = λ i v. doc.into_mime_media_type_lem v i

  -- `prepare_document` takes the format and the compression that the request asks for.
  pub prepare_document-requested :
      (info : PrinterInfo) (attrs : SimpleIppJobAttributes) (r : IppAttributes) (payload : P)
      → prepare_document ext info attrs r payload ≡ requested_document ext info attrs r payload
  unfolding prepare_document take_document_format
  prepare_document-requested info attrs r payload =
      let format : and_then (take_ipp_attribute r operation_attributes "document-format").0
            ext.into_mime_media_type
          ≡ and_then (get_ipp_attribute ext r operation_attributes "document-format")
              mime_media_type? =
        simp (mime-accessor, get_ipp_attribute-eq-find_value doc, take-value) in
      let r₁ = (take_ipp_attribute r operation_attributes "document-format").1 in
      let compression : and_then (take_ipp_attribute r₁ operation_attributes "compression").0
            ext.into_keyword
          ≡ and_then (get_ipp_attribute ext r operation_attributes "compression") keyword? =
        simp (keyword-accessor doc, get_ipp_attribute-eq-find_value doc, take-value, take-format) in
      ap
        (λ f.
          prepared ext info attrs payload f (
            and_then (take_ipp_attribute r₁ operation_attributes "compression").0 ext.into_keyword))
        format
      ∙ ap (prepared ext info attrs payload _) compression
      ∙ prepared-document_for ext info attrs payload _ _

  -- Taking the user name out of a request gives the name that is there.
  take_requesting_user_name-requested :
      (r : IppAttributes) → (take_requesting_user_name r).0 ≡ requested_user_name ext r
  unfolding take_requesting_user_name
  take_requesting_user_name-requested r = simp (get_ipp_attribute-eq-find_value doc, take-value)

  -- It leaves the attributes of other names, and of other tags.
  take_requesting_user_name-other :
      (r : IppAttributes) (t : DelimiterTag) (n : String)
      → (same_tag operation_attributes t && "requesting-user-name" == n) ≡ false
      → get_ipp_attribute ext (take_requesting_user_name r).1 t n ≡ get_ipp_attribute ext r t n
  unfolding take_requesting_user_name
  take_requesting_user_name-other r t n h =
      get_ipp_attribute-eq-find_value doc _ t n
      ∙ take-other r operation_attributes t "requesting-user-name" n h
      ∙ sym (get_ipp_attribute-eq-find_value doc r t n)

  module _ (info : PrinterInfo) (r : IppAttributes) where
    -- The job attributes and the attributes that are left, once the user name is taken.
    abbrev pub taken : SimpleIppJobAttributes × IppAttributes
    taken = let (user, r₁) = take_requesting_user_name r in take_ipp_attributes ext info user r₁

    pub taken-requested : taken.0 ≡ requested_job_attributes ext info (requested_user_name ext r) r
    taken-requested =
        (take_ipp_attributes-requested doc info _ _ operation_attributes "" refl).0
        ∙ rw
            (
              take_requesting_user_name-requested r,
              take_requesting_user_name-other r job_attributes "media" refl,
              take_requesting_user_name-other r job_attributes "orientation-requested" refl,
              take_requesting_user_name-other r job_attributes "sides" refl,
              take_requesting_user_name-other r job_attributes "print-color-mode" refl,
              take_requesting_user_name-other r job_attributes "printer-resolution" refl,
            )
            refl

    left-other :
        (n : String)
        → ("requesting-user-name" == n) ≡ false
        → get_ipp_attribute ext taken.1 operation_attributes n
          ≡ get_ipp_attribute ext r operation_attributes n
    left-other n h =
        (take_ipp_attributes-requested doc info _ _ operation_attributes n refl).1
        ∙ take_requesting_user_name-other r operation_attributes n h

    -- The document that is prepared once the user name and the job attributes have been taken is the
    -- one that the request asks for.
    pub prepare_document-taken :
        (payload : P)
        → prepare_document ext info taken.0 taken.1 payload
          ≡ requested_document ext info
              (requested_job_attributes ext info (requested_user_name ext r) r)
              r
              payload
    prepare_document-taken payload =
        prepare_document-requested info taken.0 taken.1 payload
        ∙ rw (left-other "document-format" refl, left-other "compression" refl)
            (ap (λ attrs. requested_document ext info attrs r payload) taken-requested)
