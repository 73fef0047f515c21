-- ===== src/Server/Sessions.antt =====
-- HTTP requests that the service of server/mod.rs handles one after the other, with the simple
-- service behind it.
use ippper_rs.Prelude.{refl, Bool, true, false, not, ◌&&◌, List, [], ◌∷◌, ◌++◌, if◌then◌else◌}
use ippper_rs.Ipp.Attributes.{IppRequestResponse}
use ippper_rs.Ipp.Http.{ReqParts, header_is}
use ippper_rs.Ipp.External.{External, Documented}
use ippper_rs.Error.{Result, ok, err}
use ippper_rs.Stream.BodyReader
use ippper_rs.Stream.BodyReader.{BodyReader, FramePoll}
use ippper_rs.Handler.{HttpResponse, answer_parsed, handle_ipp_via_http}
use ippper_rs.Handler.Laws.{not_allowed, unsupported}
use ippper_rs.Server.{wrap_as_http_service}
use ippper_rs.Service.Simple.Info.{PrinterInfo}
use ippper_rs.Service.Simple.State.{SimpleIppService}
use ippper_rs.Service.Simple.Documents.{Ambient}
use ippper_rs.Service.Simple.Handlers.{simple_service}
use ippper_rs.Service.Simple.World.{World, Reach, here, start}
use ippper_rs.Service.Simple.Runs.{Call, request_calls, Run, Run-append, Reach-append}
use ippper_rs.Service.Simple.Sequential.{with_service, handle_request-Run}

-- An HTTP request, and what it meets outside the service.
pub record HttpRequest (P : Type 0) : Type 0 where
  pub env : Ambient P
  pub head : ReqParts
  pub body : List FramePoll

module _ {P : Type 0} (ext : External P) (parse : BodyReader → Result (IppRequestResponse P)) where
  -- The service after some requests, accepted or not.
  abbrev pub after_all : List (HttpRequest P) → SimpleIppService → SimpleIppService
  after_all [] s = s
  after_all (r ∷ requests) s =
      after_all requests
        (wrap_as_http_service ext parse (simple_service ext r.env) r.head r.body s).1

  -- The calls of a request whose body has been parsed, and of an HTTP request: none, if it is no
  -- POST of IPP.
  abbrev parsed_calls :
      Ambient P → ReqParts → SimpleIppService → Result (IppRequestResponse P) → List (Call P)
  parsed_calls env head s (err e) = []
  parsed_calls env head s (ok req) = request_calls ext env head req s

  abbrev http_calls : HttpRequest P → SimpleIppService → List (Call P)
  http_calls r s =
      if r.head.post && header_is r.head.content_type "application/ipp"
      then parsed_calls r.env r.head s (parse (BodyReader.new r.body))
      else []

  -- The calls of all requests in their order, each to the service as it is by then.
  abbrev pub all_calls : List (HttpRequest P) → SimpleIppService → List (Call P)
  all_calls [] s = []
  all_calls (r ∷ requests) s =
      http_calls r s
      ++ all_calls requests
          (wrap_as_http_service ext parse (simple_service ext r.env) r.head r.body s).1

module _ {P : Type 0} {ext : External P} (doc : Documented ext)
    (parse : BodyReader → Result (IppRequestResponse P)) (info : PrinterInfo) where
  module _ (w : World) (reached : Reach ext (start info) w) (env : Ambient P)
      (head : ReqParts) where
    -- To the world after a request, by some calls.
    abbrev Leads : Result (HttpResponse P) × SimpleIppService → List (Call P) → Type 0
    Leads (_, s) cs = Run ext w (with_service ext w s) cs

    answer_parsed-Leads :
        (parsed : Result (IppRequestResponse P))
        → Leads
            (answer_parsed ext parse (simple_service ext env) head parsed w.service)
            (parsed_calls ext parse env head w.service parsed)
    unfolding answer_parsed
    answer_parsed-Leads (err e) = (here, refl)
    answer_parsed-Leads (ok req) = handle_request-Run doc info w reached env head req

    handle_ipp_via_http-Leads :
        (body : List FramePoll)
        → Leads
            (handle_ipp_via_http ext parse (simple_service ext env) head body w.service)
            (http_calls ext parse (record { env = env; head = head; body = body }) w.service)
    unfolding handle_ipp_via_http
    handle_ipp_via_http-Leads body =
        by_tests head.post (header_is head.content_type "application/ipp")
      where
        parsed : Result (IppRequestResponse P)
        parsed = parse (BodyReader.new body)

        by_tests :
            (post typed : Bool)
            → Leads
                (if not post
                  then (ok not_allowed, w.service)
                  else if not typed
                  then (ok unsupported, w.service)
                  else answer_parsed ext parse (simple_service ext env) head parsed w.service)
                (if post && typed then parsed_calls ext parse env head w.service parsed else [])
        by_tests false typed = (here, refl)
        by_tests true false = (here, refl)
        by_tests true true = answer_parsed-Leads parsed

  -- Whatever HTTP requests come, of any method and content type, with bodies that parse or not, one
  -- after the other, in a world that is reached from a new service: they are a run that makes the
  -- calls of these requests, in their order, and no other, and the same jobs are with the handler
  -- after it. The calls of a request are these: none, unless it is a POST of IPP that parses and has
  -- a known version; to print, the making of the job, and its end as the handler says if the document
  -- that the request asks for is supported; to create, the making of the job; to send, if the job is
  -- found, the acceptance of the document, and its end as the handler says if the job is not canceled
  -- and the document is supported; to cancel, if the job is found, its cancellation; and none for
  -- every other operation.
  pub after_all-Run :
      (requests : List (HttpRequest P)) (w : World)
      → Reach ext (start info) w
      → Run ext w
          (with_service ext w (after_all ext parse requests w.service))
          (all_calls ext parse requests w.service)
  unfolding wrap_as_http_service
  after_all-Run [] w reached = (here, refl)
  after_all-Run (r ∷ requests) w reached =
      let first = handle_ipp_via_http-Leads w reached r.env r.head r.body in
      Run-append ext first (after_all-Run requests _ (Reach-append ext reached first.0))
