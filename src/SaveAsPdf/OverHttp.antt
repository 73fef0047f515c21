-- ===== src/SaveAsPdf/OverHttp.antt =====
-- A document that comes to examples/save_as_pdf.rs over HTTP: handler/http.rs, body_reader.rs,
-- service/common.rs, service/simple.rs and the example's handler together.
use ippper_rs.Prelude.{
  ℕ, ◌+◌, ◌<◌, length, String, concat, ◌≤◌, ◌≡◌, ◌⊎◌, refl, sym, ap, subst, ◌∙◌, inl, inr, true,
  List, ◌++◌, Option, none, some, arith, leb, and_then, Bool, false, if◌then◌else◌,
}
use ippper_rs.Ipp.Enums
use ippper_rs.Ipp.Enums.{
  JobState, aborted, completed, operation_attributes, client_error_document_format_not_supported,
}
use ippper_rs.Ipp.Value.{keyword?, mime_media_type?}
use ippper_rs.Ipp.Attributes.{IppRequestResponse}
use ippper_rs.Ipp.Http.{ReqParts, visible}
use ippper_rs.Ipp.External.{External, Documented}
use ippper_rs.Error.{Result, ok, err, status_error}
use ippper_rs.Utils.{get_ipp_attribute, decommpress_payload}
use ippper_rs.Service.Common.{dispatch, call, handle_request, check_version}
use ippper_rs.Service.Simple.Info.{JobInfo, SimpleIppDocument, PrinterInfo, SimpleIppJobAttributes}
use ippper_rs.Service.Simple.State.{SimpleIppService}
use ippper_rs.Service.Simple.Documents.{Ambient, print_job}
use ippper_rs.Service.Simple.Handlers.{simple_service}
use ippper_rs.Service.Simple.Accepted.{asked_attributes, asked_document}
use ippper_rs.Service.Simple.RequestedDocument.{document_for, with_payload, supports}
use ippper_rs.Stream.BodyReader
use ippper_rs.Stream.BodyReader.{BodyReader, FramePoll, body_reader}
use ippper_rs.Stream.ReadAll.{read_all, read_all-body_reader}
use ippper_rs.Stream.BodyReaderLaws.{frame_bytes, body_waits, IsSound}
use ippper_rs.Handler.{handle_ipp_via_http}
use ippper_rs.Handler.Laws.{handle_ipp_via_http-accepted}
use ippper_rs.SaveAsPdf.{FileSystem, file_name, handle_document, with_handler}
use ippper_rs.SaveAsPdf.Laws.{KeepsFiles, FailsWith, print_job-Saves}

-- What a client of `BodyReader` is given that reads a body to its end, by polls with a buffer of n
-- bytes.
abbrev pub read_to_end : ℕ → List FramePoll → Option (List ℕ)
read_to_end n frames =
    read_all body_reader n (length (frame_bytes frames) + body_waits frames + 1)
      (BodyReader.new frames)

-- What the crate documents of its parser, which knows the body as a reader only: what the reader gives
-- to one that reads it to the end is a request's header and attributes, which the parser has read,
-- and then its payload, from which the rest can be read. `rest` is what can be read of a payload.
pub record Parses {P : Type 0} (n : ℕ) (parse : BodyReader → Result (IppRequestResponse P))
    (header_bytes : IppRequestResponse P → List ℕ) (rest : P → List ℕ) : Type 0 where
  pub splits :
      (frames : List FramePoll) (req : IppRequestResponse P) (bs : List ℕ)
      → parse (BodyReader.new frames) ≡ ok req
      → read_to_end n frames ≡ some bs
      → bs ≡ header_bytes req ++ rest req.payload

module _ {P : Type 0} (ext : External P) where
  document_for-payload :
      (info : PrinterInfo) (attrs : SimpleIppJobAttributes) (payload : P) (format : Option String)
      (document : SimpleIppDocument P)
      → document_for ext info attrs payload format none ≡ ok document
      → document.payload ≡ payload
  unfolding decommpress_payload
  document_for-payload info attrs payload format document e = by_test (supports ext info format) e
    where
      by_test :
          (fits : Bool)
          → (if fits
              then with_payload ext format attrs (decommpress_payload ext payload none)
              else err (status_error ext client_error_document_format_not_supported))
            ≡ ok document
          → document.payload ≡ payload
      by_test true e =
          let same : record { format = format; job_attributes = attrs; payload = payload }
              ≡ document =
            cc e in
          ap (λ (d : SimpleIppDocument P). d.payload) (sym same)
      by_test false e = absurd (cc e)

  -- A request that names no compression.
  abbrev pub IsUncompressed : IppRequestResponse P → Type 0
  IsUncompressed req =
      and_then (get_ipp_attribute ext req.attributes operation_attributes "compression") keyword?
      ≡ none

  asked_document-payload :
      (s : SimpleIppService) (attrs : SimpleIppJobAttributes) (req : IppRequestResponse P)
      (document : SimpleIppDocument P)
      → IsUncompressed req
      → asked_document ext s attrs req ≡ ok document
      → document.payload ≡ req.payload
  asked_document-payload s attrs req document plain asked =
      let format =
        and_then (get_ipp_attribute ext req.attributes operation_attributes "document-format")
          mime_media_type? in
      document_for-payload s.info attrs req.payload format document
        (ap (document_for ext s.info attrs req.payload format) (sym plain) ∙ asked)

  print_job-state :
      (env : Ambient P) (head : ReqParts) (req : IppRequestResponse P) (s : SimpleIppService)
      → req.header.version ≤ ext.v2_0
      → ext.operation_from_u16 req.header.operation_or_status ≡ some Enums.print_job
      → (handle_request ext (simple_service ext env) head req s).1
        ≡ (print_job ext env head req s).1
  unfolding handle_request check_version dispatch call simple_service
  print_job-state env head req s le op =
      let known : leb req.header.version ext.v2_0 ≡ true = ground arith in rw (known, op) refl

module _ {W F P : Type 0} (files : FileSystem W F P) (read : W → String → Option (List ℕ))
    (header_bytes : IppRequestResponse P → List ℕ) (frames : List FramePoll)
    (req : IppRequestResponse P) where
  -- The job is completed, and the file holds what the body of the HTTP request has behind the IPP
  -- request; or the job is aborted with the error for which the file could not be written.
  abbrev pub SavesBody : W → W → JobInfo → Type 0
  SavesBody w w' job =
      ((job.state ≡ completed)
        × (bs : List ℕ) × (read w' file_name ≡ some bs)
        × (frame_bytes frames ≡ header_bytes req ++ bs))
      ⊎ ((e : String) × (job.state ≡ aborted)
          × (job.state_message ≡ concat "Aborted: " e)
          × FailsWith files req.payload w e)

module _ {W F P : Type 0} {ext : External P} (doc : Documented ext) {files : FileSystem W F P}
    {path : F → String} {read : W → String → Option (List ℕ)} {rest : P → List ℕ}
    (keeps : KeepsFiles files path read rest) {parse : BodyReader → Result (IppRequestResponse P)}
    {header_bytes : IppRequestResponse P → List ℕ} {n : ℕ} (room : 0 < n)
    (parses : Parses n parse header_bytes rest) (env : Ambient P) (head : ReqParts)
    (frames : List FramePoll) (req : IppRequestResponse P) where
  body_split :
      IsSound frames
      → parse (BodyReader.new frames) ≡ ok req
      → frame_bytes frames ≡ header_bytes req ++ rest req.payload
  body_split sound parsed =
      parses.splits frames req (frame_bytes frames) parsed
        (read_all-body_reader n frames room sound)

  -- A print-job request that comes to the example by HTTP POST with the content type of IPP, in a
  -- version that the service knows and a body of which no frame fails and no data frame is empty,
  -- with a document that the service accepts and that is not compressed, if the parser, which reads
  -- the body by polls with a buffer, and the files do as documented: its job is completed, and the file then holds exactly the bytes that
  -- the frames of the HTTP body have behind the IPP request; or the file could not be created or
  -- not be written, and the job is aborted with the text of that error.
  pub http_print-SavesBody :
      (s : SimpleIppService) (w : W) (document : SimpleIppDocument P)
      → head.post ≡ true
      → head.content_type ≡ some (visible "application/ipp")
      → IsSound frames
      → parse (BodyReader.new frames) ≡ ok req
      → req.header.version ≤ ext.v2_0
      → ext.operation_from_u16 req.header.operation_or_status ≡ some Enums.print_job
      → IsUncompressed ext req
      → asked_document ext s (asked_attributes ext s req) req ≡ ok document
      → let service = simple_service ext (with_handler files env w) in
        let s' = (handle_ipp_via_http ext parse service head frames s).1 in
        SavesBody files read header_bytes frames req w
          (handle_document files document w).1
          (s'.cells s.allocated)
  http_print-SavesBody s w document post typed sound parsed known op plain asked =
      let env' = with_handler files env w in
      let service = simple_service ext env' in
      let state : (handle_ipp_via_http ext parse service head frames s).1
          ≡ (print_job ext env' head req s).1 =
        ap (λ x. x.1)
          (handle_ipp_via_http-accepted ext parse service head frames s req post typed parsed)
        ∙ print_job-state ext env' head req s known op in
      let same =
        asked_document-payload ext s (asked_attributes ext s req) req document plain asked in
      rw state (elim (print_job-Saves doc keeps env head req s w document asked) [
        | inl (done, said, saved) ↦ inl (
          done,
          rest document.payload,
          saved,
          body_split sound parsed ∙ ap (λ p. header_bytes req ++ rest p) (sym same),
        )
        | inr (e, failed, said, why) ↦
            inr (e, failed, said, subst (λ p. FailsWith files p w e) same why)
      ])
