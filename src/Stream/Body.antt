-- ===== src/Stream/Body.antt =====
-- body.rs: the body of a response, as a stream.
use ippper_rs.Prelude.{ℕ, String, utf8, List, Option, none, some, map_option}
use ippper_rs.Stream.Poll.{Poll, ready, pending, IoResult, ok, err, AsyncRead}
use ippper_rs.Stream.ReaderStream
use ippper_rs.Stream.ReaderStream.{ReaderStream, BytesMut, Item}

-- `BodyInner`, which is all of `Body`.
pub data Body (R : Type 0) : Type 0 where
  bytes : Option (List ℕ) → Body R
  ipp_request_response : Option (List ℕ) → ReaderStream R → Body R
  empty : Body R

-- `http_body::Frame`.
pub data Frame : Type 0 where
  data_frame : List ℕ → Frame
  trailers : Frame

-- `Poll::map_ok` on what a stream answers.
abbrev pub map_ok :
    {A B : Type 0} → (A → B) → Poll (Option (IoResult A)) → Poll (Option (IoResult B))
map_ok f pending = pending
map_ok f (ready none) = ready none
map_ok f (ready (some (ok a))) = ready (some (ok (f a)))
map_ok f (ready (some (err e))) = ready (some (err e))

module _ {R : Type 0} where
  unfoldable pub new_empty : Body R
  new_empty = empty

  -- `Body::from` of bytes, of a text, and of a response: its header and attributes in bytes, and its
  -- payload.
  unfoldable pub from_bytes : List ℕ → Body R
  from_bytes bs = bytes (some bs)

  unfoldable pub from_text : String → Body R
  unfolding utf8
  from_text t = bytes (some (utf8 t))

  unfoldable pub from_response : List ℕ → R → Body R
  from_response header payload = ipp_request_response (some header) (ReaderStream.new payload)

module _ {R : Type 0} (buffer : BytesMut) (io : AsyncRead R) where
  unfoldable pub poll_next : Body R → Item × Body R
  poll_next (bytes bs) = (ready (map_option ok bs), bytes none)
  poll_next (ipp_request_response (some header) payload) =
      (ready (some (ok header)), ipp_request_response none payload)
  poll_next (ipp_request_response none payload) =
      let (item, payload') = ReaderStream.poll_next buffer io payload in
      (item, ipp_request_response none payload')
  poll_next empty = (ready none, empty)

  unfoldable pub poll_frame : Body R → Poll (Option (IoResult Frame)) × Body R
  poll_frame body = let (item, body') = poll_next body in (map_ok data_frame item, body')
