-- ===== src/Handler/Laws.antt =====
-- When handler/http.rs lets a request through to the service.
use ippper_rs.Prelude.{
  ◌≡◌, ◌≢◌, ◌⊎◌, refl, inl, inr, true, false, List, [], ◌∷◌, if◌then◌else◌, Option, none, some,
  arith, Bool-cases, eq_iff,
}
use ippper_rs.Ipp.Attributes.{IppRequestResponse}
use ippper_rs.Ipp.Http.{ReqParts, HeaderValue, visible, unreadable, header_is}
use ippper_rs.Ipp.External.{External}
use ippper_rs.Error.{Result, ok}
use ippper_rs.Service.Common.{IppService, handle_request}
use ippper_rs.Stream.BodyReader
use ippper_rs.Stream.BodyReader.{BodyReader, FramePoll}
use ippper_rs.Handler.{HttpResponse, text, ipp, answer_parsed, handle_ipp_via_http}

header_is-false :
    (value : Option HeaderValue)
    → value ≢ some (visible "application/ipp")
    → header_is value "application/ipp" ≡ false
header_is-false none h = refl
header_is-false (some (unreadable n)) h = refl
header_is-false (some (visible t)) h = ground (arith, eq_iff t "application/ipp")

abbrev pub not_allowed : {P : Type 0} → HttpResponse P
not_allowed = record {
  status = 405;
  headers = ("Allow", "POST") ∷ [];
  body = text "405 Method Not Allowed";
}

abbrev pub unsupported : {P : Type 0} → HttpResponse P
unsupported = record { status = 415; headers = []; body = text "415 Unsupported Media Type" }

module _ {P S : Type 0} (ext : External P) (parse : BodyReader → Result (IppRequestResponse P))
    (service : IppService S P) (head : ReqParts) (body : List FramePoll) (s : S) where
  -- A POST whose content type is the text "application/ipp" and whose body parses is answered with
  -- status 200 and the service's response to the parsed request, and the service's state is the one
  -- after it.
  pub handle_ipp_via_http-accepted :
      (req : IppRequestResponse P)
      → head.post ≡ true
      → head.content_type ≡ some (visible "application/ipp")
      → parse (BodyReader.new body) ≡ ok req
      → handle_ipp_via_http ext parse service head body s ≡ (
        ok (record {
          status = 200;
          headers = ("Content-Type", "application/ipp") ∷ [];
          body = ipp (handle_request ext service head req s).0;
        }),
        (handle_request ext service head req s).1,
      )
  unfolding handle_ipp_via_http answer_parsed
  handle_ipp_via_http-accepted req post typed parsed = rw (post, typed, parsed) refl

  -- Any other method, and any other content type (a missing one, one that is no text, one with
  -- parameters), is answered with status 405 or 415, the method first; the service is not asked and
  -- its state is left alone.
  pub handle_ipp_via_http-refused :
      (head.post ≡ false) ⊎ (head.content_type ≢ some (visible "application/ipp"))
      → (resp : HttpResponse P) × (handle_ipp_via_http ext parse service head body s ≡ (ok resp, s))
        × (resp.status ≡ (if head.post then 415 else 405))
  unfolding handle_ipp_via_http
  handle_ipp_via_http-refused (inl get) = (not_allowed, rw get refl, rw get refl)
  handle_ipp_via_http-refused (inr other) = elim (Bool-cases head.post) [
    | inl post ↦ (unsupported, rw (post, header_is-false _ other) refl, rw post refl)
    | inr get ↦ (not_allowed, rw get refl, rw get refl)
  ]
