-- ===== src/Stream/Fused.antt =====
-- The streams of utils/reader_stream.rs and body.rs stay at their end.
use ippper_rs.Prelude.{ℕ, ◌≡◌, refl, sym, ap, ◌∙◌, List, [], ◌∷◌, Option, none, some}
use ippper_rs.Stream.Poll.{Poll, ready, pending, IoResult, ok, err, AsyncRead}
use ippper_rs.Stream.ReaderStream
use ippper_rs.Stream.ReaderStream.{
  ReaderStream, BytesMut, Item, poll_read_buf, next_item, poll_reader,
}
use ippper_rs.Stream.Body.{Body, bytes, ipp_request_response, empty, poll_next}

-- The end, or an error.
abbrev pub IsOver : Item → Type 0
IsOver (ready none) = Unit
IsOver (ready (some (err e))) = Unit
IsOver _ = ⊥

module _ {R : Type 0} (buffer : BytesMut) (io : AsyncRead R) where
  next_item-IsOver :
      (capacity : ℕ) (answer : (Poll (IoResult (List ℕ)) × R) × ℕ)
      → IsOver (next_item buffer io capacity answer).0
      → (next_item buffer io capacity answer).1.reader ≡ none
  unfolding next_item
  next_item-IsOver capacity ((pending, r), c) over = absurd over
  next_item-IsOver capacity ((ready (err e), r), c) over = refl
  next_item-IsOver capacity ((ready (ok []), r), c) over = refl
  next_item-IsOver capacity ((ready (ok (b ∷ bs)), r), c) over = absurd over

  poll_reader-IsOver :
      (c capacity : ℕ) (reader : Option R)
      → IsOver (poll_reader buffer io c capacity reader).0
      → (poll_reader buffer io c capacity reader).1.reader ≡ none
  unfolding poll_reader
  poll_reader-IsOver c capacity none over = refl
  poll_reader-IsOver c capacity (some r) over = next_item-IsOver capacity _ over

  poll_next-none :
      (s : ReaderStream R) → s.reader ≡ none → ReaderStream.poll_next buffer io s ≡ (ready none, s)
  unfolding ReaderStream.poll_next poll_reader
  poll_next-none s e =
      ap (poll_reader buffer io s.buf_capacity s.capacity) e
      ∙ ap
          (λ r. (
            ready none,
            record { reader = r; buf_capacity = s.buf_capacity; capacity = s.capacity },
          ))
          (sym e)

  poll_next-over :
      (s : ReaderStream R)
      → IsOver (ReaderStream.poll_next buffer io s).0
      → (ReaderStream.poll_next buffer io s).1.reader ≡ none
  unfolding ReaderStream.poll_next
  poll_next-over s over = poll_reader-IsOver s.buf_capacity s.capacity s.reader over

  -- Once a body has answered that it has ended, or with an error of its reader, it answers to a
  -- later poll that it has ended, and stays as it is.
  pub poll_next-fused :
      (body : Body R)
      → IsOver (poll_next buffer io body).0
      → poll_next buffer io (poll_next buffer io body).1
        ≡ (ready none, (poll_next buffer io body).1)
  unfolding poll_next
  poll_next-fused (bytes none) over = refl
  poll_next-fused (bytes (some bs)) over = absurd over
  poll_next-fused (ipp_request_response (some header) payload) over = absurd over
  poll_next-fused (ipp_request_response none payload) over =
      let s = (ReaderStream.poll_next buffer io payload).1 in
      rw (poll_next-none s (poll_next-over payload over)) refl
  poll_next-fused empty over = refl
