-- ===== src/Stream/Bounds.antt =====
-- What the reads of body_reader.rs and utils/reader_stream.rs write stays within their buffers. The
-- latter tells its buffer, in an `unsafe` block, that as many bytes have been written as it was told.
use ippper_rs.Prelude.{
  ℕ, zero, suc, ◌≤◌, ◌≡◌, ◌≢◌, refl, sym, ap, ◌∙◌, List, [], ◌∷◌, ◌++◌, length, take, drop, Option,
  none, some, arith, if◌then◌else◌, eqb, Bool-cases, inl, inr,
}
use mathlib.Core.List.{append_assoc}
use ippper_rs.Stream.Poll.{Poll, ready, pending, IoResult, ok, err, AsyncRead}
use ippper_rs.Stream.BodyReader.{
  FramePoll, bytes, trailers, failure, wait, BodyReader, copy_out, next_frame, read_chunk,
  poll_read, body_reader,
}
use ippper_rs.Stream.BodyReaderLaws.{frame_bytes, kept, remaining, take-append-drop, kept-leftover}
use ippper_rs.Stream.ReaderStream
use ippper_rs.Stream.ReaderStream.{
  ReaderStream, BytesMut, Item, poll_read_buf, next_item, poll_reader,
}

-- The bytes that an answer says are in the buffer.
abbrev pub written : Poll (IoResult (List ℕ)) → List ℕ
written (ready (ok bs)) = bs
written (ready (err e)) = []
written pending = []

length-take : (n : ℕ) (bs : List ℕ) → length (take n bs) ≤ n
length-take zero bs = omega arith
length-take (suc n) [] = omega arith
length-take (suc n) (b ∷ bs) = omega (arith, length-take n bs)

-- What was there is written or left, and what is written has room.
abbrev Conserves : ℕ → List ℕ → Poll (IoResult (List ℕ)) × BodyReader → Type 0
Conserves n before (answer, r') =
    (length (written answer) ≤ n) × (written answer ++ remaining r' ≡ before)

copy_out-Conserves :
    (n : ℕ) (body : List FramePoll) (bs : List ℕ)
    → Conserves n (bs ++ frame_bytes body) (copy_out n body bs)
unfolding copy_out
copy_out-Conserves n body bs = (
  length-take n bs,
  ap (λ t. take n bs ++ (t ++ frame_bytes body)) (kept-leftover (drop n bs))
      ∙ sym (append_assoc (take n bs) (drop n bs) (frame_bytes body))
      ∙ ap (λ t. t ++ frame_bytes body) (take-append-drop n bs),
)

next_frame-Conserves :
    (n : ℕ) (body : List FramePoll) → Conserves n (frame_bytes body) (next_frame n body)
unfolding next_frame
next_frame-Conserves n [] = (omega arith, refl)
next_frame-Conserves n (bytes bs ∷ body) = copy_out-Conserves n body bs
next_frame-Conserves n (trailers ∷ body) = next_frame-Conserves n body
next_frame-Conserves n (failure e ∷ body) = (omega arith, refl)
next_frame-Conserves n (wait ∷ body) = (omega arith, refl)

-- In every state of a reader, on every body, a failing one too, and for a buffer of any length, a
-- read writes no more bytes than the buffer has room for, and the bytes that it writes followed by
-- those that it leaves are the bytes that were there: none is lost, repeated or put elsewhere.
pub poll_read-conserves :
    (r : BodyReader) (n : ℕ)
    → (length (written (poll_read r n).0) ≤ n)
      × (written (poll_read r n).0 ++ remaining (poll_read r n).1 ≡ remaining r)
unfolding poll_read read_chunk
poll_read-conserves r n = by_chunk r.body r.chunk
  where
    by_chunk :
        (body : List FramePoll) (chunk : Option (List ℕ))
        → Conserves n (kept chunk ++ frame_bytes body) (read_chunk n body chunk)
    by_chunk body (some bs) = copy_out-Conserves n body bs
    by_chunk body none = next_frame-Conserves n body

-- A reader that keeps to its buffer, as `AsyncRead` asks.
abbrev pub IsBounded : {R : Type 0} → AsyncRead R → Type 0
IsBounded {R} io = (r : R) (n : ℕ) → length (written (io.poll_read r n).0) ≤ n

pub body_reader-IsBounded : IsBounded body_reader
body_reader-IsBounded r n = (poll_read-conserves r n).0

module _ {R : Type 0} (buffer : BytesMut) (io : AsyncRead R) where
  -- The capacity with which a poll of a stream asks for a slice.
  abbrev pub asked_capacity : ReaderStream R → ℕ
  asked_capacity s =
      if eqb s.buf_capacity 0 then buffer.reserve s.buf_capacity s.capacity else s.buf_capacity

  -- A chunk of a stream.
  abbrev pub IsChunk : ℕ → Item → Type 0
  IsChunk room (ready (some (ok bs))) = (bs ≢ []) × (length bs ≤ room)
  IsChunk room _ = Unit

  next_item-IsChunk :
      (room c capacity : ℕ) (answer : Poll (IoResult (List ℕ)) × R)
      → length (written answer.0) ≤ room
      → IsChunk room (next_item buffer io capacity (answer, c)).0
  unfolding next_item
  next_item-IsChunk room c capacity (pending, r) le = tt
  next_item-IsChunk room c capacity (ready (err e), r) le = tt
  next_item-IsChunk room c capacity (ready (ok []), r) le = tt
  next_item-IsChunk room c capacity (ready (ok (b ∷ bs)), r) le = ((λ e. cc), le)

  poll_read_buf-IsChunk :
      (room_at c capacity : ℕ) (r : R)
      → room_at ≡ c
      → IsBounded io
      → IsChunk
          (buffer.chunk_mut room_at).1
          (next_item buffer io capacity (poll_read_buf buffer io r c)).0
  unfolding poll_read_buf next_item
  poll_read_buf-IsChunk room_at c capacity r same bounded =
      elim (Bool-cases (buffer.has_remaining_mut c)) [
        | inr full ↦ rw full tt
        | inl room ↦
            rw (room, same)
              (next_item-IsChunk (buffer.chunk_mut c).1 (buffer.chunk_mut c).0 capacity
                (io.poll_read r (buffer.chunk_mut c).1) (bounded r (buffer.chunk_mut c).1))
      ]

  poll_reader-IsChunk :
      (c capacity : ℕ) (reader : Option R)
      → IsBounded io
      → IsChunk
          (buffer.chunk_mut (if eqb c 0 then buffer.reserve c capacity else c)).1
          (poll_reader buffer io c capacity reader).0
  unfolding poll_reader
  poll_reader-IsChunk c capacity none bounded = tt
  poll_reader-IsChunk c capacity (some r) bounded =
      poll_read_buf-IsChunk _ _ capacity r refl bounded

  -- For a reader that keeps to the buffer it is given, a chunk that the stream answers holds a byte
  -- at least, and no more bytes than the slice that the buffer offered has room for.
  pub poll_next-IsChunk :
      (s : ReaderStream R)
      → IsBounded io
      → IsChunk (buffer.chunk_mut (asked_capacity s)).1 (ReaderStream.poll_next buffer io s).0
  unfolding ReaderStream.poll_next
  poll_next-IsChunk s bounded = poll_reader-IsChunk s.buf_capacity s.capacity s.reader bounded
