-- ===== src/Stream/Receive.antt =====
-- A client that asks any body of body.rs for its frames until the end gets the contents of the body.
use ippper_rs.Prelude.{
  ℕ, zero, suc, ◌+◌, ◌<◌, ◌≡◌, refl, ap, ◌∙◌, List, [], ◌++◌, length, length-append, Option, none,
  some, map_option, arith,
}
use mathlib.Core.List.{append-nil}
use ippper_rs.Stream.Poll.{Poll, ready, pending, IoResult, ok, err, AsyncRead, IsReader}
use ippper_rs.Stream.BodyReaderLaws.{kept}
use ippper_rs.Stream.ReaderStream
use ippper_rs.Stream.ReaderStream.{ReaderStream, BytesMut, Grows, Item, poll_reader}
use ippper_rs.Stream.Body.{
  Body, bytes, ipp_request_response, empty, Frame, data_frame, trailers, map_ok, poll_next,
  poll_frame,
}
use ippper_rs.Stream.Drain.{resume, collect, collect_payload}

-- What a client makes of an answer and of what the rest of the body gives it.
abbrev pub resume_frame : Poll (Option (IoResult Frame)) → Option (List ℕ) → Option (List ℕ)
resume_frame pending rest = rest
resume_frame (ready none) rest = some []
resume_frame (ready (some (err e))) rest = none
resume_frame (ready (some (ok (data_frame bs)))) rest = map_option (λ later. bs ++ later) rest
resume_frame (ready (some (ok trailers))) rest = rest

resume_frame_lem :
    (item : Item) (rest : Option (List ℕ))
    → resume_frame (map_ok data_frame item) rest ≡ resume item rest
resume_frame_lem pending rest = refl
resume_frame_lem (ready none) rest = refl
resume_frame_lem (ready (some (err e))) rest = refl
resume_frame_lem (ready (some (ok bs))) rest = refl

module _ {R : Type 0} (buffer : BytesMut) (io : AsyncRead R) where
  -- Asks for frames until the body ends, with fuel for the number of polls; `none` if the fuel runs
  -- out or the body fails.
  unfoldable pub receive : ℕ → Body R → Option (List ℕ)
  receive zero body = none
  receive (suc fuel) body =
      let (frame, body') = poll_frame buffer io body in
      let rest = receive fuel body' in resume_frame frame rest

  receive-collect : (fuel : ℕ) (body : Body R) → receive fuel body ≡ collect buffer io fuel body
  unfolding receive collect poll_frame
  receive-collect zero body = refl
  receive-collect (suc fuel) body =
      let (item, body') = poll_next buffer io body in
      resume_frame_lem item (receive fuel body') ∙ ap (resume item) (receive-collect fuel body')

module _ {R : Type 0} (remaining : R → List ℕ) where
  -- What a body has still to give.
  abbrev pub unread : Option R → List ℕ
  unread none = []
  unread (some r) = remaining r

  abbrev pub contents : Body R → List ℕ
  contents (bytes bs) = kept bs
  contents (ipp_request_response header payload) = kept header ++ unread payload.reader
  contents empty = []

module _ {R : Type 0} (waits : R → ℕ) where
  abbrev reader_waits : Option R → ℕ
  reader_waits none = 0
  reader_waits (some r) = waits r

  -- How often a body makes its client wait.
  abbrev pub pauses : Body R → ℕ
  pauses (ipp_request_response header payload) = reader_waits payload.reader
  pauses _ = 0

module _ {R : Type 0} (IsValid : R → Type 0) where
  abbrev HasValid : Option R → Type 0
  HasValid none = Unit
  HasValid (some r) = IsValid r

  abbrev pub IsSendable : Body R → Type 0
  IsSendable (ipp_request_response header payload) = HasValid payload.reader
  IsSendable _ = Unit

module _ {R : Type 0} {buffer : BytesMut} (grows : Grows buffer) {io : AsyncRead R}
    {IsValid : R → Type 0} {remaining : R → List ℕ} {waits : R → ℕ}
    (reader : IsReader io IsValid remaining waits) where
  collect_reader :
      (fuel : ℕ) (reader? : Option R) (c capacity : ℕ)
      → HasValid IsValid reader?
      → length (unread remaining reader?) + reader_waits waits reader? < fuel
      → collect buffer io fuel (
          ipp_request_response none
            (record { reader = reader?; buf_capacity = c; capacity = capacity }))
        ≡ some (unread remaining reader?)
  unfolding collect poll_next ReaderStream.poll_next poll_reader
  collect_reader zero none c capacity valid lt = absurd (omega arith)
  collect_reader (suc fuel) none c capacity valid lt = refl
  collect_reader fuel (some r) c capacity valid lt =
      collect_payload grows reader fuel c capacity r valid lt

  collect-contents :
      (fuel : ℕ) (body : Body R)
      → IsSendable IsValid body
      → length (contents remaining body) + pauses waits body + 1 < fuel
      → collect buffer io fuel body ≡ some (contents remaining body)
  unfolding collect poll_next
  collect-contents zero body valid lt = absurd (omega arith)
  collect-contents (suc zero) body valid lt = absurd (omega arith)
  collect-contents (suc (suc fuel)) (bytes none) valid lt = refl
  collect-contents (suc (suc fuel)) (bytes (some bs)) valid lt = ap some (append-nil bs)
  collect-contents (suc (suc fuel)) empty valid lt = refl
  collect-contents (suc (suc fuel)) (ipp_request_response none payload) valid lt =
      collect_reader (suc (suc fuel)) payload.reader payload.buf_capacity payload.capacity valid
        (omega arith)
  collect-contents (suc (suc fuel)) (ipp_request_response (some header) payload) valid lt =
      ap (map_option (λ later. header ++ later)) (
        collect_reader (suc fuel) payload.reader payload.buf_capacity payload.capacity valid
          (omega (arith, length-append header (unread remaining payload.reader))))

  -- Asking a body for its frames until the end, from any state of the body, gives the bytes that it
  -- has still to give: those of a text, or the header that is left and all that is left of the
  -- payload, or none. The payload's reader must deliver its bytes in order, wait finitely often and
  -- not fail, and the buffer must be able to grow; any number of polls is enough that exceeds the
  -- number of bytes and waits by 2.
  pub receive-contents :
      (fuel : ℕ) (body : Body R)
      → IsSendable IsValid body
      → length (contents remaining body) + pauses waits body + 1 < fuel
      → receive buffer io fuel body ≡ some (contents remaining body)
  receive-contents fuel body valid lt =
      receive-collect buffer io fuel body ∙ collect-contents fuel body valid lt
