-- ===== src/Lib.antt =====
-- A model of ippper, an IPP print server library, and its correctness.
--
-- A request comes in as an HTTP request. `Handler` (src/handler/http.rs) checks method and
-- content type, reads the body through `Stream.BodyReader` (src/body_reader.rs), has it parsed,
-- and asks a service: `Service.Common` (src/service/common.rs) checks the version, dispatches on
-- the operation and turns errors into responses. The service is that of `Service.Simple`
-- (src/service/simple.rs), which keeps jobs and hands documents to a handler. Its response
-- becomes a stream of bytes in `Stream.Body` (src/body.rs) and `Stream.ReaderStream`
-- (src/utils/reader_stream.rs). `Server` (src/server/mod.rs) accepts the connections that the
-- requests come on.
--
-- Files, and the code that they are about (paths from the root of the repository):
--   Model, Model/Laws: src/model/mod.rs, the conversions `TryFrom` and `From` and
--     `WhichJob::match_state`.
--   Utils, Utils/Lookup: src/utils/mod.rs, with the names of the source.
--   Error: src/error.rs and src/result.rs; an `anyhow::Error` is an `IppError` or a text.
--   Service/Common, Service/Dispatch: src/service/common.rs, the trait `IppService` as a record
--     of its methods over a state, `build_error_response`, `check_version` and `handle_request`.
--   Service/Simple/...: src/service/simple.rs. Info: the structs and `take_ipp_attributes`.
--     State: the struct `SimpleIppService`, `new`, its setters, `alloc_job`, `find_job`,
--     `take_document_format`. Url: `make_url`. Render: the macros by which attributes are listed.
--     PrinterAttributes: `printer_attributes`. JobAttributes: `lite_job_attributes_for` and
--     `job_attributes_for`. Responses: `add_basic_attributes` and the groups of a response.
--     Documents: `print_job`, `create_job`, `send_document`. Handlers: the other operations and
--     the `impl IppService`. World: requests at work at the same time. Consistent, Steps and Life
--     are about all interleavings, Queue and Queue/Refines give the abstract view of the jobs and
--     of what happens to them, Times the times of a job, Progress, Stuck and Commute how jobs get
--     on, do not get on and do not disturb each other, JobIds and JobUris the ids, Runs and
--     Sequential the requests that run without interruption and what each of them calls. Accepted,
--     Outcomes, Outcomes/Send and TwoSteps are about what becomes of a document, Requested and
--     RequestedDocument about what a request asks for, RenderLaws, ByName, Asked, Listing,
--     Filters, GetJobs, Reports and Queries about what a client reads in an answer, Answers,
--     FindJob, NotFound and Refusals about the answers of all operations, UrlLaws about URLs.
--   Handler, Handler/Laws: src/handler/http.rs; Handler/Wire: the bytes that a client gets.
--   Stream/...: src/body_reader.rs, src/utils/reader_stream.rs and src/body.rs; Drain, Receive
--     and ReadAll are the clients that poll to the end, Fused is about polls after it, Bounds
--     about buffers.
--   Server, Server/Laws: src/server/mod.rs; Server/Sessions: HTTP requests one after the other.
--   SaveAsPdf, SaveAsPdf/Laws, SaveAsPdf/OverHttp: examples/save_as_pdf.rs; what tokio does with
--     files is `FileSystem`, a parameter, and `KeepsFiles` what it documents.
--   Ipp/...: the crates. Their types are data types with the variants that the source names, and
--     `other` for the rest; their functions and constants are the fields of `External`, a
--     parameter, and `Documented` states what the crates document of them.
--   Prelude: the library's names, Boolean tests, lists, i32 values, text. Tests: concrete runs.
--
-- State. The jobs of the simple service are behind `RwLock`s, which the cache and the requests
-- share: a lock is the number of a cell, `cells` gives its content, and the snapshot maps job ids
-- to numbers. A write through a handle is seen by all. `alloc_job` takes the id, makes the cell
-- and inserts it in one step: until it is inserted, no other request can tell. A request that has
-- a document for the handler is two steps, before the handler and after it, which the operations
-- compose; `World.Step` lets any other request come between, and lets the cache drop jobs. The
-- response that describes a job is built from the job as it has just been written.
--
-- Numbers are natural numbers where the source has unsigned ones; a job id is an `i32` and wraps.
-- The clock gives the readings of `uptime` in the order in which a request takes them.
--
-- Fuel: `collect`, `receive` and `read_all` poll a number of times that is given; that the number
-- of bytes and of waits, and one or two more, is enough is part of their theorems. `decimal` has
-- fuel for ten digits, which an `i32` never exceeds.
--
-- Not modelled: wakers and the pinning of futures; the insides of tokio, hyper and rustls, the
-- gzip decoder, the parser and the printer of IPP messages and the expiry times of the cache,
-- which are parameters; logging, and what the example prints; the address that the example
-- listens on and the certificates that are built into it. The example's handler runs on the files
-- as they are when it is called: two documents that are saved at the same time are not
-- interleaved.
mod Prelude
pub mod Ipp
pub mod Error
pub mod Model
pub mod Utils
pub mod Service
pub mod Stream
pub mod Handler
pub mod Server
pub mod SaveAsPdf
mod Tests
