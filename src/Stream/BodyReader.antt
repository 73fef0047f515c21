-- ===== src/Stream/BodyReader.antt =====
-- body_reader.rs: an HTTP body, which comes in frames, as a reader of bytes.
use ippper_rs.Prelude.{ℕ, String, List, [], ◌∷◌, Option, none, some, take, drop, concat}
use ippper_rs.Stream.Poll.{Poll, ready, pending, IoResult, ok, err, AsyncRead}

-- One answer of the body to `poll_frame`.
pub data FramePoll : Type 0 where
  bytes : List ℕ → FramePoll
  trailers : FramePoll
  failure : String → FramePoll
  wait : FramePoll

-- A body is the answers that it will give; after them it answers that it has ended.
pub record BodyReader : Type 0 where
  pub body : List FramePoll
  pub chunk : Option (List ℕ)

unfoldable pub new : List FramePoll → BodyReader
new body = record { body = body; chunk = none }

-- `if data.has_remaining() { chunk.replace(data) }`.
abbrev pub leftover : List ℕ → Option (List ℕ)
leftover [] = none
leftover (b ∷ bs) = some (b ∷ bs)

-- As many bytes of the chunk as fit into the buffer; what is left over is kept.
unfoldable pub copy_out : ℕ → List FramePoll → List ℕ → Poll (IoResult (List ℕ)) × BodyReader
copy_out n body bs = (ready (ok (take n bs)), record { body = body; chunk = leftover (drop n bs) })

-- The loop: frames that hold no data are passed over.
unfoldable pub next_frame : ℕ → List FramePoll → Poll (IoResult (List ℕ)) × BodyReader
unfolding copy_out
next_frame n [] = (ready (ok []), record { body = []; chunk = none })
next_frame n (bytes bs ∷ body) = copy_out n body bs
next_frame n (trailers ∷ body) = next_frame n body
next_frame n (failure e ∷ body) =
    (ready (err (concat "Error reading body: " e)), record { body = body; chunk = none })
next_frame n (wait ∷ body) = (pending, record { body = body; chunk = none })

-- `poll_read`, by the chunk that is kept.
unfoldable pub read_chunk :
    ℕ → List FramePoll → Option (List ℕ) → Poll (IoResult (List ℕ)) × BodyReader
unfolding next_frame copy_out
read_chunk n body (some bs) = copy_out n body bs
read_chunk n body none = next_frame n body

unfoldable pub poll_read : BodyReader → ℕ → Poll (IoResult (List ℕ)) × BodyReader
unfolding read_chunk
poll_read r n = read_chunk n r.body r.chunk

abbrev pub body_reader : AsyncRead BodyReader
body_reader = record { poll_read = poll_read }
