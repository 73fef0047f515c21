-- ===== src/Stream/BodyReaderLaws.antt =====
-- body_reader.rs delivers the data of the frames, in order and without loss, to buffers of any
-- length; but a frame of no bytes looks like the end of the body.
use ippper_rs.Prelude.{
  ℕ, zero, suc, ◌≤◌, ◌<◌, ◌≡◌, ◌≢◌, refl, sym, ap, ◌∙◌, List, [], ◌∷◌, ◌++◌, take, drop, Option,
  none, some, arith, subst,
}
use mathlib.Core.List.{append_assoc}
use ippper_rs.Stream.Poll.{Poll, ready, pending, IoResult, ok, err, IsReader}
use ippper_rs.Stream.BodyReader.{
  FramePoll, bytes, trailers, failure, wait, BodyReader, leftover, copy_out, next_frame, read_chunk,
  poll_read, body_reader,
}

-- The bytes of the data frames.
abbrev pub frame_bytes : List FramePoll → List ℕ
frame_bytes [] = []
frame_bytes (bytes bs ∷ body) = bs ++ frame_bytes body
frame_bytes (_ ∷ body) = frame_bytes body

abbrev pub kept : Option (List ℕ) → List ℕ
kept none = []
kept (some bs) = bs

-- All that the reader has still to deliver.
abbrev pub remaining : BodyReader → List ℕ
remaining r = kept r.chunk ++ frame_bytes r.body

-- How often the body will make the reader wait.
abbrev pub body_waits : List FramePoll → ℕ
body_waits [] = 0
body_waits (wait ∷ body) = suc (body_waits body)
body_waits (_ ∷ body) = body_waits body

-- No frame fails, and no data frame is empty.
abbrev pub IsSound : List FramePoll → Type 0
IsSound [] = Unit
IsSound (bytes bs ∷ body) = (bs ≢ []) × IsSound body
IsSound (failure e ∷ body) = ⊥
IsSound (_ ∷ body) = IsSound body

abbrev pub IsValid : BodyReader → Type 0
IsValid r = (r.chunk ≢ some []) × IsSound r.body

pub take-append-drop : (n : ℕ) (bs : List ℕ) → take n bs ++ drop n bs ≡ bs
take-append-drop zero bs = refl
take-append-drop (suc n) [] = refl
take-append-drop (suc n) (b ∷ bs) = ap (λ t. b ∷ t) (take-append-drop n bs)

pub kept-leftover : (bs : List ℕ) → kept (leftover bs) ≡ bs
kept-leftover [] = refl
kept-leftover (b ∷ bs) = refl

leftover_full : (bs : List ℕ) → leftover bs ≢ some []
leftover_full [] e = cc
leftover_full (b ∷ bs) e = cc

-- What one poll has delivered and left, by its answer.
abbrev Delivers : List ℕ → ℕ → Poll (IoResult (List ℕ)) × BodyReader → Type 0
Delivers before waits (ready (ok bs), r') =
    IsValid r' × (before ≡ bs ++ remaining r') × (body_waits r'.body ≤ waits)
Delivers before waits (ready (err e), r') = ⊥
Delivers before waits (pending, r') =
    IsValid r' × (remaining r' ≡ before) × (body_waits r'.body < waits)

copy_out-Delivers :
    (n : ℕ) (body : List FramePoll) (bs : List ℕ)
    → IsSound body
    → Delivers (bs ++ frame_bytes body) (body_waits body) (copy_out n body bs)
unfolding copy_out
copy_out-Delivers n body bs sound = (
  (leftover_full (drop n bs), sound),
  ap (λ t. t ++ frame_bytes body) (sym (take-append-drop n bs))
      ∙ append_assoc (take n bs) (drop n bs) (frame_bytes body)
      ∙ ap (λ t. take n bs ++ (t ++ frame_bytes body)) (sym (kept-leftover (drop n bs))),
  omega arith,
)

next_frame-Delivers :
    (n : ℕ) (body : List FramePoll)
    → IsSound body
    → Delivers (frame_bytes body) (body_waits body) (next_frame n body)
unfolding next_frame
next_frame-Delivers n [] sound = ((λ e. cc, tt), refl, omega arith)
next_frame-Delivers n (bytes bs ∷ body) sound = copy_out-Delivers n body bs sound.1
next_frame-Delivers n (trailers ∷ body) sound = next_frame-Delivers n body sound
next_frame-Delivers n (failure e ∷ body) sound = sound
next_frame-Delivers n (wait ∷ body) sound = ((λ e. cc, sound), refl, omega arith)

read_chunk-Delivers :
    (n : ℕ) (body : List FramePoll) (chunk : Option (List ℕ))
    → IsSound body
    → Delivers (kept chunk ++ frame_bytes body) (body_waits body) (read_chunk n body chunk)
unfolding read_chunk
read_chunk-Delivers n body (some bs) sound = copy_out-Delivers n body bs sound
read_chunk-Delivers n body none sound = next_frame-Delivers n body sound

copy_out_some :
    (n : ℕ) (body : List FramePoll) (bs : List ℕ) (r' : BodyReader)
    → 0 < n
    → bs ≢ []
    → copy_out n body bs ≢ (ready (ok []), r')
unfolding copy_out
copy_out_some zero body bs r' pos full e = absurd (omega arith)
copy_out_some (suc n) body [] r' pos full e = full refl
copy_out_some (suc n) body (b ∷ bs) r' pos full e = ground arith

next_frame-ends :
    (n : ℕ) (body : List FramePoll) (r' : BodyReader)
    → IsSound body
    → 0 < n
    → next_frame n body ≡ (ready (ok []), r')
    → frame_bytes body ≡ []
unfolding next_frame
next_frame-ends n [] r' sound pos e = refl
next_frame-ends n (bytes bs ∷ body) r' sound pos e =
    absurd (copy_out_some n body bs r' pos sound.0 e)
next_frame-ends n (trailers ∷ body) r' sound pos e = next_frame-ends n body r' sound pos e
next_frame-ends n (failure m ∷ body) r' sound pos e = absurd sound
next_frame-ends n (wait ∷ body) r' sound pos e = absurd (ground arith)

read_chunk-ends :
    (n : ℕ) (body : List FramePoll) (chunk : Option (List ℕ)) (r' : BodyReader)
    → chunk ≢ some []
    → IsSound body
    → 0 < n
    → read_chunk n body chunk ≡ (ready (ok []), r')
    → kept chunk ++ frame_bytes body ≡ []
unfolding read_chunk
read_chunk-ends n body none r' full sound pos e = next_frame-ends n body r' sound pos e
read_chunk-ends n body (some bs) r' full sound pos e =
    absurd (copy_out_some n body bs r' pos (λ empty. full (ap some empty)) e)

-- As long as no frame fails and no data frame is empty, reading an HTTP body through `BodyReader`
-- gives the bytes of its data frames in order, whatever the lengths of the buffers and however
-- often the body makes it wait; it reports no bytes to a buffer with room only at the end of the
-- body.
pub body_reader-IsReader : IsReader body_reader IsValid remaining (λ r. body_waits r.body)
unfolding poll_read
body_reader-IsReader = record {
  reads = λ r r' n bs valid e.
      subst (Delivers (remaining r) (body_waits r.body)) e
        (read_chunk-Delivers n r.body r.chunk valid.1);
  ends = λ r r' n valid pos e. read_chunk-ends n r.body r.chunk r' valid.0 valid.1 pos e;
  waits_less = λ r r' n valid e.
      subst (Delivers (remaining r) (body_waits r.body)) e
        (read_chunk-Delivers n r.body r.chunk valid.1);
  never_fails = λ r r' n m valid e.
      subst (Delivers (remaining r) (body_waits r.body)) e
        (read_chunk-Delivers n r.body r.chunk valid.1);
}

-- A data frame of no bytes makes the reader report the end of the body, to a buffer of any length,
-- although all the bytes of the later frames are still to come.
pub poll_read-empty_frame :
    (n : ℕ) (body : List FramePoll) (b : ℕ) (bs : List ℕ)
    → frame_bytes body ≡ b ∷ bs
    → (r' : BodyReader) × (poll_read (record { body = bytes [] ∷ body; chunk = none }) n
        ≡ (ready (ok []), r'))
      × (remaining r' ≡ b ∷ bs)
unfolding poll_read copy_out
poll_read-empty_frame zero body b bs e = (record { body = body; chunk = none }, refl, e)
poll_read-empty_frame (suc n) body b bs e = (record { body = body; chunk = none }, refl, e)
