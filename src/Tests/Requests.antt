-- ===== src/Tests/Requests.antt =====
-- A printer, requests to it, and a run in which one job is canceled while another one is printed.
use ippper_rs.Prelude.{
  ℕ, ◌≡◌, refl, inl, subst, sym, ℤ, pos, true, List, [], ◌∷◌, none, some, arith, ◌+◌,
}
use ippper_rs.Ipp.Enums.{operation_attributes, job_attributes, canceled, DelimiterTag}
use ippper_rs.Ipp.Value.{integer, keyword, mime_media_type, name_without_language}
use ippper_rs.Ipp.HashMap.{get, without}
use ippper_rs.Ipp.Attributes.{IppAttribute, attribute, IppAttributeGroup, IppRequestResponse}
use ippper_rs.Ipp.Http.{ReqParts, visible}
use ippper_rs.Error.{ok}
use ippper_rs.Utils.{
  take_ipp_attribute, remove_first, take_requesting_user_name, decommpress_payload,
}
use ippper_rs.Service.Simple.Info.{default_info, take_ipp_attributes}
use ippper_rs.Service.Simple.State.{new, alloc_job, take_document_format}
use ippper_rs.Service.Simple.Documents.{
  Ambient, default_handle_document, prepare_document, print_job_begin, create_job, new_job,
  finish_document,
}
use ippper_rs.Service.Simple.Handlers.{cancel_found}
use ippper_rs.Service.Simple.World.{
  World, IsRunning, enter, leave, Step, print, finish, create, cancel, Reach, here, next, start,
}
use ippper_rs.Tests.Crates.{crates}

abbrev pub head : ReqParts
head = record {
  post = true;
  content_type = some (visible "application/ipp");
  host = some (visible "printer.local");
  scheme = none;
}

-- The default handler, which accepts every document, on a clock that counts seconds.
abbrev pub env : Ambient (List ℕ)
env = record {
  uuid = 7;
  uptime = λ n. record { secs = 100 + n; nanos = 0 };
  handle_document = default_handle_document;
}

abbrev pub group : DelimiterTag → List IppAttribute → IppAttributeGroup
group t [] = record { tag = t; attributes = [] }
group t (a ∷ more) = record { tag = t; attributes = (a.name, a) ∷ (group t more).attributes }

abbrev pub request : ℕ → ℕ → ℕ → List IppAttributeGroup → List ℕ → IppRequestResponse (List ℕ)
request version op id groups payload = record {
  header = record { version = version; operation_or_status = op; request_id = id };
  attributes = record { groups = groups };
  payload = payload;
}

abbrev pub print_request : IppRequestResponse (List ℕ)
print_request =
    request 512 2 1
      (group operation_attributes (
          attribute "requesting-user-name" (name_without_language "alice")
          ∷ attribute "document-format" (mime_media_type "application/pdf")
          ∷ [])
        ∷ group job_attributes (attribute "media" (keyword "iso_a5_148x210mm") ∷ [])
        ∷ [])
      (37 ∷ 80 ∷ 68 ∷ 70 ∷ [])

-- The format is none that the printer supports.
abbrev pub text_request : IppRequestResponse (List ℕ)
text_request =
    request 512 2 2
      (group operation_attributes (attribute "document-format" (mime_media_type "text/plain") ∷ [])
        ∷ [])
      (65 ∷ [])

abbrev pub create_request : IppRequestResponse (List ℕ)
create_request = request 512 5 3 (group operation_attributes [] ∷ []) []

-- A request about a job.
abbrev pub about_job : ℕ → ℤ → IppRequestResponse (List ℕ)
about_job op id =
    request 512 op 4 (group operation_attributes (attribute "job-id" (integer id) ∷ []) ∷ [])
      (37 ∷ 80 ∷ [])

-- A pending job, and with it a job whose document is with the handler; then the first is canceled,
-- and the second completed.
abbrev pub created : World
created = record {
  service = (create_job crates env head create_request (new default_info)).1;
  running = [];
}

abbrev pub printing : World
printing = record {
  service = (print_job_begin crates env print_request created.service).1;
  running =
      let begun = (print_job_begin crates env print_request created.service).0 in
      enter begun.0 begun.1 created.running;
}

abbrev pub canceled_one : World
canceled_one = record {
  service = (cancel_found crates (about_job 8 (pos 1000)) 0 printing.service).1;
  running = printing.running;
}

abbrev pub printed : World
printed = record {
  service =
      (finish_document crates head print_request 1 (ok tt) (env.uptime 1) canceled_one.service).1;
  running = leave 1 canceled_one.running;
}

pub printing_running : printing.running ≡ 1 ∷ []
unfolding print_job_begin create_job new alloc_job prepare_document take_document_format
    take_ipp_attribute remove_first take_requesting_user_name decommpress_payload get without
    take_ipp_attributes
printing_running = refl

pub printing_allocated : printing.service.allocated ≡ 2
unfolding print_job_begin create_job new alloc_job
printing_allocated = refl

pub canceled_one_allocated : canceled_one.service.allocated ≡ 2
unfolding print_job_begin create_job new alloc_job cancel_found new_job
canceled_one_allocated = refl

pub canceled_one_state : (canceled_one.service.cells 0).state ≡ canceled
unfolding print_job_begin create_job new alloc_job cancel_found new_job
canceled_one_state = refl

pub canceling : Step crates printing canceled_one
canceling = cancel (about_job 8 (pos 1000)) 0 (omega (arith, printing_allocated))

pub completing : Step crates canceled_one printed
completing =
    finish head print_request 1 (ok tt) (env.uptime 1)
      (subst (IsRunning 1) (sym printing_running) (inl refl))

pub until_canceled : Reach crates (start default_info) canceled_one
until_canceled =
    next (next (next here (create env head create_request)) (print env print_request)) canceling

pub until_printed : Reach crates (start default_info) printed
until_printed = next until_canceled completing
