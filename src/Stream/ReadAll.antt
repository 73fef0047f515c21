-- ===== src/Stream/ReadAll.antt =====
-- A client that reads a request's body through body_reader.rs to its end.
use ippper_rs.Prelude.{
  ℕ, zero, suc, ◌+◌, ◌<◌, ◌≡◌, refl, sym, ap, ◌∙◌, List, [], ◌∷◌, ◌++◌, length, length-append,
  Option, none, some, map_option, arith,
}
use ippper_rs.Stream.Poll.{Poll, ready, pending, IoResult, ok, err, AsyncRead, IsReader}
use ippper_rs.Stream.BodyReader
use ippper_rs.Stream.BodyReader.{FramePoll, BodyReader, body_reader, poll_read}
use ippper_rs.Stream.BodyReaderLaws.{IsSound, frame_bytes, body_waits, body_reader-IsReader}

-- What a client makes of an answer and of what it reads afterwards.
abbrev pub gather : Poll (IoResult (List ℕ)) → Option (List ℕ) → Option (List ℕ)
gather pending rest = rest
gather (ready (err e)) rest = none
gather (ready (ok [])) rest = some []
gather (ready (ok (b ∷ bs))) rest = map_option (λ later. (b ∷ bs) ++ later) rest

module _ {R : Type 0} (io : AsyncRead R) (n : ℕ) where
  -- Reads with buffers of n bytes until it is given no bytes, with fuel for the number of polls.
  unfoldable pub read_all : ℕ → R → Option (List ℕ)
  read_all zero r = none
  read_all (suc fuel) r =
      let (answer, r') = io.poll_read r n in let rest = read_all fuel r' in gather answer rest

module _ {R : Type 0} {io : AsyncRead R} {IsGood : R → Type 0} {left : R → List ℕ} {waits : R → ℕ}
    (reader : IsReader io IsGood left waits) (n : ℕ) (room : 0 < n) where
  after_poll :
      (fuel : ℕ) (r : R) (answer : Poll (IoResult (List ℕ)) × R)
      → ((r' : R)
          → IsGood r'
          → length (left r') + waits r' < fuel
          → read_all io n fuel r' ≡ some (left r'))
      → IsGood r
      → length (left r) + waits r < suc fuel
      → io.poll_read r n ≡ answer
      → gather answer.0 (read_all io n fuel answer.1) ≡ some (left r)
  after_poll fuel r (pending, r') ih good lt e =
      let (good', same, fewer) = reader.waits_less r r' n good e in
      ih r' good' (omega (arith, ap length same)) ∙ ap some same
  after_poll fuel r (ready (err m), r') ih good lt e = absurd (reader.never_fails r r' n m good e)
  after_poll fuel r (ready (ok []), r') ih good lt e =
      ap some (sym (reader.ends r r' n good room e))
  after_poll fuel r (ready (ok (b ∷ bs)), r') ih good lt e =
      let (good', split, fewer) = reader.reads r r' n (b ∷ bs) good e in
      let rest = ih r' good' (omega (arith, ap length split, length-append (b ∷ bs) (left r'))) in
      rw rest (ap some (sym split))

  read_all_lem :
      (fuel : ℕ) (r : R)
      → IsGood r
      → length (left r) + waits r < fuel
      → read_all io n fuel r ≡ some (left r)
  unfolding read_all
  read_all_lem zero r good lt = absurd (omega arith)
  read_all_lem (suc fuel) r good lt =
      after_poll fuel r (io.poll_read r n) (read_all_lem fuel) good lt refl

-- Reading an HTTP body through `BodyReader` to its end, with a buffer of any length above 0, gives
-- the bytes of its data frames in order, if no frame fails and no data frame is empty, however
-- often the body makes the reader wait; as many polls as there are bytes and waits, and one more,
-- are enough.
pub read_all-body_reader :
    (n : ℕ) (body : List FramePoll)
    → 0 < n
    → IsSound body
    → read_all body_reader n (length (frame_bytes body) + body_waits body + 1) (BodyReader.new body)
      ≡ some (frame_bytes body)
unfolding BodyReader.new
read_all-body_reader n body room sound =
    read_all_lem body_reader-IsReader n room _ (BodyReader.new body) ((λ e. cc), sound)
      (omega arith)
