-- ===== src/Stream/Poll.antt =====
-- What polling gives (`std::task::Poll`), and readers of bytes (`futures::AsyncRead`).
use ippper_rs.Prelude.{ℕ, ◌≤◌, ◌<◌, ◌≡◌, ◌≢◌, String, List, [], ◌++◌}

pub data Poll (A : Type 0) : Type 0 where
  ready : A → Poll A
  pending : Poll A

-- `io::Error`, of which the program reads the text.
pub data IoResult (A : Type 0) : Type 0 where
  ok : A → IoResult A
  err : String → IoResult A

-- A reader is polled with the length of the buffer. `ready (ok bs)` stands for `Ready(Ok(n))` with
-- the first n bytes of the buffer written.
pub record AsyncRead (R : Type 0) : Type 0 where
  pub poll_read : R → ℕ → Poll (IoResult (List ℕ)) × R

-- A reader that gives its bytes in order, waits a finite number of times, does not fail, and reports
-- no bytes to a buffer that has room only when none are left.
pub record IsReader {R : Type 0} (io : AsyncRead R) (IsValid : R → Type 0) (remaining : R → List ℕ)
    (waits : R → ℕ) : Type 0 where
  pub reads :
      (r r' : R) (n : ℕ) (bs : List ℕ)
      → IsValid r
      → io.poll_read r n ≡ (ready (ok bs), r')
      → IsValid r' × (remaining r ≡ bs ++ remaining r') × (waits r' ≤ waits r)
  pub ends :
      (r r' : R) (n : ℕ)
      → IsValid r
      → 0 < n
      → io.poll_read r n ≡ (ready (ok []), r')
      → remaining r ≡ []
  pub waits_less :
      (r r' : R) (n : ℕ)
      → IsValid r
      → io.poll_read r n ≡ (pending, r')
      → IsValid r' × (remaining r' ≡ remaining r) × (waits r' < waits r)
  pub never_fails :
      (r r' : R) (n : ℕ) (e : String) → IsValid r → io.poll_read r n ≢ (ready (err e), r')
