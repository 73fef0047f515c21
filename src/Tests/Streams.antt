-- ===== src/Tests/Streams.antt =====
-- The theorems on the bytes that go in and out, at concrete inputs.
use ippper_rs.Prelude.{
  ℕ, zero, suc, ◌+◌, ◌<◌, ◌≤◌, ◌≡◌, refl, sym, ap, ◌∙◌, true, List, [], ◌∷◌, ◌++◌, length, take,
  drop, none, some, arith,
}
use ippper_rs.Ipp.Attributes.{IppRequestResponse}
use ippper_rs.Error.{Result, ok}
use ippper_rs.Service.Common.{handle_request}
use ippper_rs.Service.Simple.Handlers.{simple_service}
use ippper_rs.Handler.{HttpResponse, handle_ipp_via_http}
use ippper_rs.Service.Simple.State.{SimpleIppService}
use ippper_rs.Handler.Wire.{Gets, needs, handle_ipp_via_http-Answers}
use ippper_rs.Stream.BodyReader
use ippper_rs.Stream.BodyReader.{
  BodyReader, FramePoll, bytes, trailers, wait, body_reader, poll_read,
}
use ippper_rs.Stream.Poll
use ippper_rs.Stream.Poll.{AsyncRead, IsReader}
use ippper_rs.Stream.BodyReaderLaws.{
  frame_bytes, remaining, body_waits, body_reader-IsReader, poll_read-empty_frame, take-append-drop,
}
use ippper_rs.Stream.Bounds.{
  written, poll_read-conserves, body_reader-IsBounded, IsChunk, asked_capacity, poll_next-IsChunk,
}
use ippper_rs.Stream.ReaderStream
use ippper_rs.Stream.ReaderStream.{ReaderStream, BytesMut, Grows}
use ippper_rs.Stream.Body.{Body, ipp_request_response}
use ippper_rs.Stream.Receive.{receive, contents, receive-contents}
use ippper_rs.Stream.ReadAll.{read_all, read_all-body_reader}
use ippper_rs.Tests.Crates.{crates}
use ippper_rs.Tests.Requests.{head, env, print_request, created}

abbrev frames : List FramePoll
frames = bytes (1 ∷ 2 ∷ 3 ∷ []) ∷ wait ∷ trailers ∷ bytes (4 ∷ []) ∷ []

poll_read-empty_frame_example :
    (r' : BodyReader) × (poll_read (record { body = bytes [] ∷ frames; chunk = none }) 8
      ≡ (Poll.ready (Poll.ok []), r'))
    × (remaining r' ≡ 1 ∷ 2 ∷ 3 ∷ 4 ∷ [])
poll_read-empty_frame_example = poll_read-empty_frame 8 frames 1 (2 ∷ 3 ∷ 4 ∷ []) refl

read_all-body_reader_example :
    read_all body_reader 2
      (length (frame_bytes frames) + body_waits frames + 1)
      (BodyReader.new frames)
    ≡ some (frame_bytes frames)
read_all-body_reader_example =
    read_all-body_reader 2 frames (omega arith) ((λ e. cc), ((λ e. cc), tt))

-- A buffer that always offers 64 bytes.
abbrev buffer : BytesMut
buffer = record {
  reserve = λ n c. n + c;
  has_remaining_mut = λ c. true;
  chunk_mut = λ c. (c + 64, 64);
  split = λ c n. c;
}

buffer-Grows : Grows buffer
buffer-Grows = record { has_room = λ c. refl; offers = λ c. omega arith }

abbrev payload : BodyReader
payload = record { body = frames; chunk = none }

-- A reader in the middle of a frame.
abbrev half_read : BodyReader
half_read = record { body = frames; chunk = some (8 ∷ 9 ∷ []) }

poll_read-conserves_example :
    (length (written (poll_read half_read 1).0) ≤ 1)
    × (written (poll_read half_read 1).0 ++ remaining (poll_read half_read 1).1
        ≡ remaining half_read)
poll_read-conserves_example = poll_read-conserves half_read 1

abbrev stream : ReaderStream BodyReader
stream = record { reader = some half_read; buf_capacity = 0; capacity = 4096 }

poll_next-IsChunk_example :
    IsChunk buffer body_reader
      (buffer.chunk_mut (asked_capacity buffer body_reader stream)).1
      (ReaderStream.poll_next buffer body_reader stream).0
poll_next-IsChunk_example = poll_next-IsChunk buffer body_reader stream body_reader-IsBounded

abbrev response_body : Body BodyReader
response_body =
    ipp_request_response (some (7 ∷ 8 ∷ []))
      (record { reader = some payload; buf_capacity = 0; capacity = 4096 })

receive-contents_example :
    receive buffer body_reader 20 response_body ≡ some (contents remaining response_body)
receive-contents_example =
    receive-contents buffer-Grows body_reader-IsReader 20 response_body
      ((λ e. cc), ((λ e. cc), ((λ e. cc), tt))) (omega arith)

-- A payload that is its bytes.
abbrev list_reader : AsyncRead (List ℕ)
list_reader = record { poll_read = λ p n. (Poll.ready (Poll.ok (take n p)), drop n p) }

list_reader-ends : (n : ℕ) (p : List ℕ) → 0 < n → take n p ≡ [] → p ≡ []
list_reader-ends n [] pos e = refl
list_reader-ends (suc n) (b ∷ bs) pos e = cc
list_reader-ends zero (b ∷ bs) pos e = absurd (omega arith)

list_reader-IsReader : IsReader list_reader (λ p. Unit) (λ p. p) (λ p. 0)
list_reader-IsReader = record {
  reads = λ r r' n bs valid e.
      let given : take n r ≡ bs = cc e in
      let left : drop n r ≡ r' = cc e in
      (
        tt,
        sym (take-append-drop n r) ∙ ap (λ t. t ++ drop n r) given ∙ ap (λ t. bs ++ t) left,
        omega arith,
      );
  ends = λ r r' n valid pos e. let given : take n r ≡ [] = cc e in list_reader-ends n r pos given;
  waits_less = λ r r' n valid e. absurd (cc e);
  never_fails = λ r r' n m valid e. cc e;
}

-- A parser that finds one request in every body.
abbrev parse : BodyReader → Result (IppRequestResponse (List ℕ))
parse body = ok print_request

-- The bytes of a response, of which the test only looks at the request's id.
abbrev to_bytes : IppRequestResponse (List ℕ) → List ℕ
to_bytes response = response.header.request_id ∷ []

abbrev answer : Result (HttpResponse (List ℕ)) × SimpleIppService
answer = handle_ipp_via_http crates parse (simple_service crates env) head frames created.service

abbrev polls : ℕ
polls = needs to_bytes (λ p. p) (λ p. 0) answer + 1

handle_ipp_via_http-Answers_example :
    let (response, s') =
      handle_request crates (simple_service crates env) head print_request created.service in
    Gets to_bytes buffer list_reader polls 200
      (("Content-Type", "application/ipp") ∷ [])
      (to_bytes response ++ response.payload)
      s'
      answer
handle_ipp_via_http-Answers_example =
    handle_ipp_via_http-Answers crates parse (simple_service crates env) to_bytes buffer-Grows
      list_reader-IsReader (λ p. tt) polls head frames created.service (omega arith)
