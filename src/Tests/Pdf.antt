-- ===== src/Tests/Pdf.antt =====
-- The theorems on the example program, at concrete inputs.
use ippper_rs.Prelude.{
  arith, ℕ, ◌+◌, none, Option, String, ◌≡◌, refl, sym, ap, ◌∙◌, ◌++◌, List, [], ◌∷◌, some, length,
  unwrap_or, eq_refl,
}
use ippper_rs.Ipp.HashMap.{HashMap, get, insert, get-insert}
use ippper_rs.Error.{Result, ok, err, other}
use ippper_rs.Ipp.Attributes.{IppRequestResponse}
use ippper_rs.Stream.BodyReader
use ippper_rs.Stream.BodyReader.{BodyReader, FramePoll, bytes, wait, body_reader, poll_read}
use ippper_rs.Stream.ReadAll.{read_all}
use ippper_rs.Stream.BodyReaderLaws.{remaining, body_waits}
use ippper_rs.Handler.{handle_ipp_via_http}
use ippper_rs.Service.Simple.Handlers.{simple_service}
use ippper_rs.SaveAsPdf.OverHttp.{Parses, IsUncompressed, SavesBody, http_print-SavesBody}
use ippper_rs.Utils.{get_ipp_attribute, decommpress_payload}
use ippper_rs.Service.Simple.Info.{SimpleIppDocument, default_info}
use ippper_rs.Service.Simple.State.{new}
use ippper_rs.Service.Simple.Documents.{print_job}
use ippper_rs.Service.Simple.Accepted.{asked_attributes, asked_document}
use ippper_rs.SaveAsPdf.{FileSystem, handle_document, with_handler}
use ippper_rs.SaveAsPdf.Laws.{KeepsFiles, Saves, print_job-Saves}
use ippper_rs.Stream.Poll
use ippper_rs.Tests.Crates.{crates, crates-Documented}
use ippper_rs.Tests.Requests.{head, env, print_request}

-- Files by their names; an open file is its name.
abbrev disk : FileSystem (HashMap (List ℕ)) String (List ℕ)
disk = record {
  create = λ name w. (Poll.ok name, insert w name []);
  copy = λ payload file w.
      (Poll.ok (length payload), insert w file (unwrap_or (get w file) [] ++ payload));
}

disk-KeepsFiles : KeepsFiles disk (λ file. file) get (λ payload. payload)
disk-KeepsFiles = record {
  create_lem = λ name w w' file e.
      let same : name ≡ file = cc e in
      let made : insert w name [] ≡ w' = cc e in
      (
        sym same,
        ap (λ m. get m name) (sym made) ∙ get-insert w name name [] ∙ rw (eq_refl name) refl,
      );
  copy_lem = λ payload file w w' n bs e old.
      let wrote : insert w file (unwrap_or (get w file) [] ++ payload) ≡ w' = cc e in
      ap (λ m. get m file) (sym wrote)
      ∙ get-insert w file file (unwrap_or (get w file) [] ++ payload)
      ∙ rw (eq_refl file, old) refl;
}

abbrev document : SimpleIppDocument (List ℕ)
document = record {
  format = some "application/pdf";
  job_attributes = asked_attributes crates (new default_info) print_request;
  payload = 37 ∷ 80 ∷ 68 ∷ 70 ∷ [];
}

printed_document :
    asked_document crates
      (new default_info)
      (asked_attributes crates (new default_info) print_request)
      print_request
    ≡ ok document
unfolding get_ipp_attribute get new decommpress_payload
printed_document = refl

-- An older document is in the file.
abbrev older : HashMap (List ℕ)
older = ("D:\\1.pdf", 1 ∷ 2 ∷ 3 ∷ []) ∷ []

print_job-Saves_example :
    let s' =
      (print_job crates (with_handler disk env older) head print_request (new default_info)).1 in
    Saves disk get
      (λ payload. payload)
      document
      older
      (s'.cells (new default_info).allocated)
      (handle_document disk document older).1
print_job-Saves_example =
    print_job-Saves crates-Documented disk-KeepsFiles env head print_request (new default_info)
      older document printed_document

-- A parser for requests of one byte, their id, before the payload.
abbrev parse_bytes : List ℕ → Result (IppRequestResponse (List ℕ))
parse_bytes [] = err (other "end of file")
parse_bytes (b ∷ bs) =
    ok (record print_request {
      header = record print_request.header { request_id = b };
      payload = bs;
    })

abbrev parse_read : Option (List ℕ) → Result (IppRequestResponse (List ℕ))
parse_read none = err (other "incomplete body")
parse_read (some bs) = parse_bytes bs

-- It reads the body to its end, four bytes at a time.
abbrev parse : BodyReader → Result (IppRequestResponse (List ℕ))
parse r = parse_read (read_all body_reader 4 (length (remaining r) + body_waits r.body + 1) r)

abbrev header_bytes : IppRequestResponse (List ℕ) → List ℕ
header_bytes req = req.header.request_id ∷ []

parse_bytes_lem :
    (bs : List ℕ) (req : IppRequestResponse (List ℕ))
    → parse_bytes bs ≡ ok req
    → bs ≡ header_bytes req ++ req.payload
parse_bytes_lem [] req e = cc
parse_bytes_lem (b ∷ bs) req e =
    let same : record print_request {
      header = record print_request.header { request_id = b };
      payload = bs;
    }
        ≡ req =
      cc e in
    ap (λ (q : IppRequestResponse (List ℕ)). header_bytes q ++ q.payload) same

parse-Parses : Parses 4 parse header_bytes (λ payload. payload)
unfolding BodyReader.new
parse-Parses = record {
  splits = λ frames req bs parsed read. parse_bytes_lem bs req (sym (ap parse_read read) ∙ parsed);
}

-- The document comes in two frames, and the body makes the reader wait between them.
abbrev frames : List FramePoll
frames = bytes (9 ∷ 37 ∷ 80 ∷ []) ∷ wait ∷ bytes (68 ∷ 70 ∷ []) ∷ []

abbrev http_request : IppRequestResponse (List ℕ)
http_request = record print_request {
  header = record print_request.header { request_id = 9 };
  payload = 37 ∷ 80 ∷ 68 ∷ 70 ∷ [];
}

uncompressed : IsUncompressed crates http_request
unfolding get_ipp_attribute get
uncompressed = refl

http_document :
    asked_document crates
      (new default_info)
      (asked_attributes crates (new default_info) http_request)
      http_request
    ≡ ok document
unfolding get_ipp_attribute get new decommpress_payload
http_document = refl

http_read : parse (BodyReader.new frames) ≡ ok http_request
unfolding BodyReader.new read_all poll_read
http_read = refl

http_print-SavesBody_example :
    let service = simple_service crates (with_handler disk env older) in
    let s' = (handle_ipp_via_http crates parse service head frames (new default_info)).1 in
    SavesBody disk get header_bytes frames http_request older
      (handle_document disk document older).1
      (s'.cells (new default_info).allocated)
http_print-SavesBody_example =
    http_print-SavesBody crates-Documented disk-KeepsFiles (omega arith) parse-Parses env head
      frames http_request (new default_info) older document refl refl ((λ e. cc), ((λ e. cc), tt))
      http_read (omega arith) refl uncompressed http_document
