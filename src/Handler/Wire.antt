-- ===== src/Handler/Wire.antt =====
-- What a client gets for an HTTP request: handler/http.rs, body_reader.rs, body.rs and
-- utils/reader_stream.rs together.
use ippper_rs.Prelude.{
  some, ◌∷◌, ℕ, String, utf8, ◌+◌, ◌<◌, ◌≡◌, refl, Bool, true, false, not, List, [], ◌++◌, length,
  if◌then◌else◌,
}
use ippper_rs.Ipp.Attributes.{IppRequestResponse}
use ippper_rs.Ipp.Http.{ReqParts, header_is}
use ippper_rs.Ipp.External.{External}
use ippper_rs.Error.{Error, Result, ok, err}
use ippper_rs.Service.Common.{IppService, handle_request}
use ippper_rs.Stream.Poll.{AsyncRead, IsReader}
use ippper_rs.Stream.BodyReader
use ippper_rs.Stream.BodyReader.{BodyReader, FramePoll}
use ippper_rs.Stream.ReaderStream
use ippper_rs.Stream.ReaderStream.{BytesMut, Grows}
use ippper_rs.Stream.Body.{from_text, from_response}
use ippper_rs.Stream.Receive.{receive, contents, pauses, IsSendable, receive-contents}
use ippper_rs.Handler.Laws.{not_allowed, unsupported}
use ippper_rs.Handler.{
  Content, into_body, text, ipp, HttpResponse, answer_parsed, handle_ipp_via_http,
}

-- What becomes of a request.
pub data Fate (P : Type 0) : Type 0 where
  not_a_post wrong_type : Fate P
  unreadable : Error → Fate P
  handled : IppRequestResponse P → Fate P

abbrev pub parsed_fate : {P : Type 0} → Result (IppRequestResponse P) → Fate P
parsed_fate (err e) = unreadable e
parsed_fate (ok req) = handled req

-- What a request is, by its method first, then by its content type, then by its body.
abbrev pub fate : {P : Type 0} → ReqParts → Result (IppRequestResponse P) → Fate P
fate head parsed =
    if head.post
    then (if header_is head.content_type "application/ipp" then parsed_fate parsed else wrong_type)
    else not_a_post

-- What an answer is about: its status, its headers, the bytes that the client receives in `fuel`
-- polls of the body, and the service's state.
module _ {P S : Type 0} (to_bytes : IppRequestResponse P → List ℕ) (buffer : BytesMut)
    (io : AsyncRead P) (fuel : ℕ) where
  abbrev pub Gets : ℕ → List (String × String) → List ℕ → S → Result (HttpResponse P) × S → Type 0
  Gets status headers bytes s (err e, s') = ⊥
  Gets status headers bytes s (ok resp, s') =
      (resp.status ≡ status)
      × (resp.headers ≡ headers)
      × (receive buffer io fuel (into_body to_bytes resp.body) ≡ some bytes)
      × (s' ≡ s)

module _ {P S : Type 0} (ext : External P) (service : IppService S P)
    (to_bytes : IppRequestResponse P → List ℕ) (buffer : BytesMut) (io : AsyncRead P)
    (remaining : P → List ℕ) (fuel : ℕ) where
  -- What the answer to a request is, by what becomes of the request.
  abbrev pub Answers : ReqParts → Fate P → S → Result (HttpResponse P) × S → Type 0
  Answers head not_a_post s answer =
      Gets to_bytes buffer io fuel 405 (("Allow", "POST") ∷ []) (utf8 "405 Method Not Allowed") s
        answer
  Answers head wrong_type s answer =
      Gets to_bytes buffer io fuel 415 [] (utf8 "415 Unsupported Media Type") s answer
  Answers head (unreadable e) s answer = answer ≡ (err e, s)
  Answers head (handled req) s answer =
      let (response, s') = handle_request ext service head req s in
      Gets to_bytes buffer io fuel 200 (("Content-Type", "application/ipp") ∷ [])
        (to_bytes response ++ remaining response.payload) s' answer

-- The polls that an answer needs: for each byte, for each wait, and two more.
module _ {P S : Type 0} (to_bytes : IppRequestResponse P → List ℕ) (remaining : P → List ℕ)
    (waits : P → ℕ) where
  abbrev pub needs : Result (HttpResponse P) × S → ℕ
  needs (err e, s) = 0
  needs (ok resp, s) =
      let body = into_body to_bytes resp.body in
      length (contents remaining body) + pauses waits body + 1

module _ {P S : Type 0} (ext : External P) (parse : BodyReader → Result (IppRequestResponse P))
    (service : IppService S P) (to_bytes : IppRequestResponse P → List ℕ) {buffer : BytesMut}
    (grows : Grows buffer) {io : AsyncRead P} {IsValid : P → Type 0} {remaining : P → List ℕ}
    {waits : P → ℕ} (reader : IsReader io IsValid remaining waits) (valid : (p : P) → IsValid p)
    (fuel : ℕ) where
  into_body-IsSendable : (content : Content P) → IsSendable IsValid (into_body to_bytes content)
  unfolding into_body from_text from_response ReaderStream.new
  into_body-IsSendable (text t) = tt
  into_body-IsSendable (ipp response) = valid response.payload

  received :
      (content : Content P)
      → let body = into_body to_bytes content in
        length (contents remaining body) + pauses waits body + 1 < fuel
        → receive buffer io fuel (into_body to_bytes content)
          ≡ some (contents remaining (into_body to_bytes content))
  received content enough =
      receive-contents grows reader fuel (into_body to_bytes content) (into_body-IsSendable content)
        enough

  answer_parsed-Answers :
      (head : ReqParts) (parsed : Result (IppRequestResponse P)) (s : S)
      → needs to_bytes remaining waits (answer_parsed ext parse service head parsed s) < fuel
      → Answers ext service to_bytes buffer io remaining fuel head
          (parsed_fate parsed)
          s
          (answer_parsed ext parse service head parsed s)
  unfolding answer_parsed into_body from_response ReaderStream.new
  answer_parsed-Answers head (err e) s enough = refl
  answer_parsed-Answers head (ok req) s enough =
      let response = (handle_request ext service head req s).0 in
      (refl, refl, received (ipp response) enough, refl)

  -- A request that is no POST is answered with status 405 and the header that allows POST, one with
  -- another content type than "application/ipp" with status 415, and the client receives the text
  -- that says so, with the service left alone; a body that does not parse gives the parser's error;
  -- and for any other request the client receives, with status 200 and the content type of IPP, the
  -- bytes of the service's response followed by all of its payload, and the service is as it is
  -- after that request. The reader of payloads must deliver its bytes in order, wait finitely often
  -- and not fail, and the buffer must be able to grow; as many polls are enough as there are bytes
  -- and waits, and two more.
  pub handle_ipp_via_http-Answers :
      (head : ReqParts) (body : List FramePoll) (s : S)
      → needs to_bytes remaining waits (handle_ipp_via_http ext parse service head body s) < fuel
      → Answers ext service to_bytes buffer io remaining fuel head
          (fate head (parse (BodyReader.new body)))
          s
          (handle_ipp_via_http ext parse service head body s)
  unfolding handle_ipp_via_http into_body from_text
  handle_ipp_via_http-Answers head body s enough =
      by_tests head.post (header_is head.content_type "application/ipp") enough
    where
      parsed : Result (IppRequestResponse P)
      parsed = parse (BodyReader.new body)

      by_tests :
          (post typed : Bool)
          → let answer =
              (if not post
                then (ok not_allowed, s)
                else if not typed
                then (ok unsupported, s)
                else answer_parsed ext parse service head parsed s) in
            needs to_bytes remaining waits answer < fuel
            → Answers ext service to_bytes buffer io remaining fuel head
                (if post then (if typed then parsed_fate parsed else wrong_type) else not_a_post)
                s
                answer
      by_tests false typed enough =
          (refl, refl, received (text "405 Method Not Allowed") enough, refl)
      by_tests true false enough =
          (refl, refl, received (text "415 Unsupported Media Type") enough, refl)
      by_tests true true enough = answer_parsed-Answers head parsed s enough
