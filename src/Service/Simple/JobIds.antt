-- ===== src/Service/Simple/JobIds.antt =====
-- The ids of jobs in service/simple.rs, which an `AtomicI32` counts up from 1000.
use ippper_rs.Prelude.{ℕ, ℤ, pos, negsuc, ◌+◌, ◌<◌, ◌↔◌, arith, to_i32}
use ippper_rs.Ipp.External.{External, Documented}
use ippper_rs.Service.Simple.Info.{PrinterInfo}
use ippper_rs.Service.Simple.World.{World, Reach, start}
use ippper_rs.Service.Simple.Steps.{reachable-IsConsistent}

-- What IPP asks of a `job-id`.
abbrev pub IsPositive : ℤ → Type 0
IsPositive (pos n) = 0 < n
IsPositive (negsuc n) = ⊥

to_i32-IsPositive : (n : ℕ) → 0 < n → n < 4294967296 → IsPositive (to_i32 n) ↔ (n < 2147483648)
unfolding to_i32
to_i32-IsPositive n some_ lt = ground arith

-- Of the first 2^32 - 1000 jobs of a service reached from a new one, exactly the first
-- 2^31 - 1000 have a positive id: after them the counter has wrapped around to negative numbers.
pub ids-IsPositive :
    {P : Type 0} {ext : External P} (doc : Documented ext) (info : PrinterInfo) (w : World) (h : ℕ)
    → Reach ext (start info) w
    → h < w.service.allocated
    → h < 4294966296
    → IsPositive (w.service.cells h).id ↔ (h < 2147482648)
ids-IsPositive doc info w h reached used near =
    let c = reachable-IsConsistent doc info w reached in
    let small : (1000 + h < 2147483648) ↔ (h < 2147482648) =
      (λ lt. omega arith, λ lt. omega arith) in
    rw (c.ids h used) (
      λ p. small.0 ((to_i32-IsPositive (1000 + h) (omega arith) (omega arith)).0 p),
      λ lt. (to_i32-IsPositive (1000 + h) (omega arith) (omega arith)).1 (small.1 lt),
    )
