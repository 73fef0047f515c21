-- ===== src/Tests/Wire.antt =====
-- The theorems on connections, on streams at their end and on the queue at concrete inputs.
use ippper_rs.Prelude.{◌≡◌, true}
use ippper_rs.Stream.ReaderStream.{BytesMut}
use ippper_rs.Service.Simple.Info.{default_info}
use ippper_rs.Service.Simple.Queue.{queue_after, empty_queue, abstract}
use ippper_rs.Service.Simple.Queue.Refines.{abstract-queue_after}
use ippper_rs.Tests.Crates.{crates-Documented}
use ippper_rs.Tests.Requests.{printed, until_printed}

abstract-queue_after_example : abstract printed ≡ queue_after until_printed empty_queue
abstract-queue_after_example =
    abstract-queue_after crates-Documented default_info printed until_printed

abbrev buffer : BytesMut
buffer = record {
  reserve = λ n c. c;
  has_remaining_mut = λ c. true;
  chunk_mut = λ c. (c, 64);
  split = λ c n. c;
}
