-- ===== src/Handler.antt =====
-- handler/http.rs: an IPP request that comes as an HTTP request.
pub mod Laws
pub mod Wire
use ippper_rs.Prelude.{
  ℕ, String, Bool, true, false, not, List, [], ◌∷◌, Option, none, some, if◌then◌else◌,
}
use ippper_rs.Ipp.Attributes.{IppRequestResponse}
use ippper_rs.Ipp.Http.{ReqParts, header_is}
use ippper_rs.Ipp.External.{External}
use ippper_rs.Error.{Error, Result, ok, err}
use ippper_rs.Service.Common.{IppService, handle_request}
use ippper_rs.Stream.Body.{Body, from_text, from_response}
use ippper_rs.Stream.BodyReader
use ippper_rs.Stream.BodyReader.{BodyReader, FramePoll}

-- The body of an HTTP response: a text, or an IPP response that `Body` turns into bytes.
pub data Content (P : Type 0) : Type 0 where
  text : String → Content P
  ipp : IppRequestResponse P → Content P

pub record HttpResponse (P : Type 0) : Type 0 where
  pub status : ℕ
  pub headers : List (String × String)
  pub body : Content P

-- `Body::from` of a text, and of a response, whose header and attributes are turned into bytes by
-- `to_bytes`.
unfoldable pub into_body : {P : Type 0} → (IppRequestResponse P → List ℕ) → Content P → Body P
unfolding from_text from_response
into_body to_bytes (text t) = from_text t
into_body to_bytes (ipp response) = from_response (to_bytes response) response.payload

module _ {P S : Type 0} (ext : External P) (parse : BodyReader → Result (IppRequestResponse P))
    (service : IppService S P) where
  -- The request is parsed by `AsyncIppParser`; its error is returned by `?`.
  unfoldable pub answer_parsed :
      ReqParts → Result (IppRequestResponse P) → S → Result (HttpResponse P) × S
  answer_parsed head (err e) s = (err e, s)
  answer_parsed head (ok req) s =
      let (response, s') = handle_request ext service head req s in
      (
        ok (record {
          status = 200;
          headers = ("Content-Type", "application/ipp") ∷ [];
          body = ipp response;
        }),
        s',
      )

  unfoldable pub handle_ipp_via_http : ReqParts → List FramePoll → S → Result (HttpResponse P) × S
  handle_ipp_via_http head body s =
      if not head.post
      then (
        ok (record {
          status = 405;
          headers = ("Allow", "POST") ∷ [];
          body = text "405 Method Not Allowed";
        }),
        s,
      )
      else if not (header_is head.content_type "application/ipp")
      then (ok (record { status = 415; headers = []; body = text "415 Unsupported Media Type" }), s)
      else answer_parsed head (parse (BodyReader.new body)) s
