-- ===== src/Stream/Drain.antt =====
-- A client that polls the body of a response until its end gets the header and the payload: the
-- work of body.rs and utils/reader_stream.rs together.
use ippper_rs.Prelude.{
  ℕ, zero, suc, ◌+◌, ◌<◌, ◌≡◌, refl, sym, ap, ◌∙◌, List, [], ◌∷◌, ◌++◌, length, length-append,
  Option, none, some, map_option, arith, eqb, if◌then◌else◌,
}
use ippper_rs.Stream.Poll.{Poll, ready, pending, IoResult, ok, err, AsyncRead, IsReader}
use ippper_rs.Stream.ReaderStream
use ippper_rs.Stream.ReaderStream.{
  ReaderStream, BytesMut, Grows, Item, poll_read_buf, next_item, poll_reader,
}
use ippper_rs.Stream.Body.{Body, ipp_request_response, from_response, poll_next}

-- What a client makes of an item and of what the rest of the body gives it.
abbrev pub resume : Item → Option (List ℕ) → Option (List ℕ)
resume pending rest = rest
resume (ready none) rest = some []
resume (ready (some (err e))) rest = none
resume (ready (some (ok bs))) rest = map_option (λ later. bs ++ later) rest

module _ {R : Type 0} (buffer : BytesMut) (io : AsyncRead R) where
  -- Polls the body until it ends, with fuel for the number of polls; `none` if the fuel runs out or
  -- the body fails.
  unfoldable pub collect : ℕ → Body R → Option (List ℕ)
  collect zero body = none
  collect (suc fuel) body =
      let (item, body') = poll_next buffer io body in
      let rest = collect fuel body' in resume item rest

module _ {R : Type 0} {buffer : BytesMut} (grows : Grows buffer) {io : AsyncRead R}
    {IsValid : R → Type 0} {remaining : R → List ℕ} {waits : R → ℕ}
    (reader : IsReader io IsValid remaining waits) where
  abbrev payload_of : R → ℕ → ℕ → Body R
  payload_of r c capacity =
      ipp_request_response none (record { reader = some r; buf_capacity = c; capacity = capacity })

  module _ (fuel capacity : ℕ) (r : R) (valid : IsValid r)
      (enough : length (remaining r) + waits r < suc fuel)
      (ih : (c : ℕ) (r' : R)
        → IsValid r'
        → length (remaining r') + waits r' < fuel
        → collect buffer io fuel (payload_of r' c capacity) ≡ some (remaining r')) where
    after_read :
        (n c : ℕ) (answer : Poll (IoResult (List ℕ)) × R)
        → 0 < n
        → io.poll_read r n ≡ answer
        → resume (next_item buffer io capacity (answer, c)).0 (
            collect buffer io fuel
              (ipp_request_response none (next_item buffer io capacity (answer, c)).1))
          ≡ some (remaining r)
    unfolding next_item
    after_read n c (pending, r') pos e =
        let (valid', same, fewer) = reader.waits_less r r' n valid e in
        ih c r' valid' (omega (arith, ap length same)) ∙ ap some same
    after_read n c (ready (err m), r') pos e = absurd (reader.never_fails r r' n m valid e)
    after_read n c (ready (ok []), r') pos e = ap some (sym (reader.ends r r' n valid pos e))
    after_read n c (ready (ok (b ∷ bs)), r') pos e =
        let (valid', split, fewer) = reader.reads r r' n (b ∷ bs) valid e in
        rw
          (ih (buffer.split c (length (b ∷ bs))) r' valid'
            (omega (arith, ap length split, length-append (b ∷ bs) (remaining r'))))
          (ap some (sym split))

    poll_read_buf_lem :
        (c : ℕ)
        → poll_read_buf buffer io r c
          ≡ (io.poll_read r (buffer.chunk_mut c).1, (buffer.chunk_mut c).0)
    unfolding poll_read_buf
    poll_read_buf_lem c = ground (arith, grows.has_room c)

  pub collect_payload :
      (fuel c capacity : ℕ) (r : R)
      → IsValid r
      → length (remaining r) + waits r < fuel
      → collect buffer io fuel (payload_of r c capacity) ≡ some (remaining r)
  unfolding collect poll_next ReaderStream.poll_next poll_reader
  collect_payload zero c capacity r valid lt = absurd (omega arith)
  collect_payload (suc fuel) c capacity r valid lt =
      let ih = λ (c' : ℕ) (r' : R). collect_payload fuel c' capacity r' in
      let c₁ = if eqb c 0 then buffer.reserve c capacity else c in
      rw (poll_read_buf_lem fuel capacity r valid lt ih c₁) (
        after_read fuel capacity r valid lt ih (buffer.chunk_mut c₁).1 (buffer.chunk_mut c₁).0 _
          (grows.offers c₁) refl)

  -- Polling the body of a response until its end gives the bytes of its header followed by all the
  -- bytes of its payload, for any reader that delivers its bytes in order, waits finitely often and
  -- does not fail, and any buffer that can grow; as many polls as there are bytes and waits, and two
  -- more, are enough.
  pub collect-from_response :
      (header : List ℕ) (r : R)
      → IsValid r
      → collect buffer io (length (remaining r) + waits r + 2) (from_response header r)
        ≡ some (header ++ remaining r)
  unfolding from_response ReaderStream.new collect poll_next
  collect-from_response header r valid =
      let n = length (remaining r) + waits r in
      let two : n + 2 ≡ suc (n + 1) = omega arith in
      rw two
        (rw (collect_payload (n + 1) 0 ReaderStream.default_capacity r valid (omega arith)) refl)
