-- ===== src/Stream/ReaderStream.antt =====
-- utils/reader_stream.rs: a reader of bytes as a stream of chunks.
use ippper_rs.Prelude.{
  ℕ, ◌<◌, ◌≡◌, Bool, true, not, List, [], ◌∷◌, length, Option, none, some, eqb, if◌then◌else◌,
}
use ippper_rs.Stream.Poll.{Poll, ready, pending, IoResult, ok, err, AsyncRead}

abbrev pub default_capacity : ℕ
default_capacity = 4096

-- What the program uses of `bytes::BytesMut` on a buffer that holds no bytes, by its capacity:
-- `reserve(n)`, `has_remaining_mut`, `chunk_mut` (the capacity after it, and the length of the slice
-- that it offers), and the capacity that `split` leaves once some bytes have been filled in.
pub record BytesMut : Type 0 where
  pub reserve : ℕ → ℕ → ℕ
  pub has_remaining_mut : ℕ → Bool
  pub chunk_mut : ℕ → ℕ × ℕ
  pub split : ℕ → ℕ → ℕ

-- A buffer can always grow, and its slice is not empty.
pub record Grows (buffer : BytesMut) : Type 0 where
  pub has_room : (c : ℕ) → buffer.has_remaining_mut c ≡ true
  pub offers : (c : ℕ) → 0 < (buffer.chunk_mut c).1

-- `Poll<Option<io::Result<Bytes>>>`, what a stream answers.
abbrev pub Item : Type 0
Item = Poll (Option (IoResult (List ℕ)))

-- The buffer is empty between two polls; of it the capacity is kept.
pub record ReaderStream (R : Type 0) : Type 0 where
  pub reader : Option R
  pub buf_capacity : ℕ
  pub capacity : ℕ

unfoldable pub new : {R : Type 0} → R → ReaderStream R
new r = record { reader = some r; buf_capacity = 0; capacity = default_capacity }

module _ {R : Type 0} (buffer : BytesMut) (io : AsyncRead R) where
  -- The answer, the reader and the capacity of the buffer, which holds the bytes that were read.
  unfoldable pub poll_read_buf : R → ℕ → (Poll (IoResult (List ℕ)) × R) × ℕ
  poll_read_buf r c =
      if not (buffer.has_remaining_mut c)
      then ((ready (ok []), r), c)
      else let (c', n) = buffer.chunk_mut c in (io.poll_read r n, c')

  -- What `poll_next` makes of the answer of the reader.
  unfoldable pub next_item : ℕ → (Poll (IoResult (List ℕ)) × R) × ℕ → Item × ReaderStream R
  next_item capacity ((pending, r), c) =
      (pending, record { reader = some r; buf_capacity = c; capacity = capacity })
  next_item capacity ((ready (err e), r), c) =
      (ready (some (err e)), record { reader = none; buf_capacity = c; capacity = capacity })
  next_item capacity ((ready (ok []), r), c) =
      (ready none, record { reader = none; buf_capacity = c; capacity = capacity })
  next_item capacity ((ready (ok (b ∷ bs)), r), c) = (
    ready (some (ok (b ∷ bs))),
    record {
      reader = some r;
      buf_capacity = buffer.split c (length (b ∷ bs));
      capacity = capacity;
    },
  )

  unfoldable pub poll_reader : ℕ → ℕ → Option R → Item × ReaderStream R
  poll_reader c capacity none =
      (ready none, record { reader = none; buf_capacity = c; capacity = capacity })
  poll_reader c capacity (some r) =
      next_item capacity (poll_read_buf r (if eqb c 0 then buffer.reserve c capacity else c))

  unfoldable pub poll_next : ReaderStream R → Item × ReaderStream R
  poll_next s = poll_reader s.buf_capacity s.capacity s.reader
