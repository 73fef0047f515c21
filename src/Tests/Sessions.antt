-- ===== src/Tests/Sessions.antt =====
-- The theorems on the server, at concrete inputs.
use ippper_rs.Prelude.{ℕ, ◌≡◌, false, List, [], ◌∷◌, eqb, if◌then◌else◌}
use ippper_rs.Ipp.Attributes.{IppRequestResponse}
use ippper_rs.Error
use ippper_rs.Error.{Result}
use ippper_rs.Stream.Poll.{IoResult, ok, err}
use ippper_rs.Server.{Network, Served, serve_adaptive_https}
use ippper_rs.Server.Laws.{ServesAll, serve_adaptive_https-ServesAll}
use ippper_rs.Stream.BodyReader.{BodyReader, bytes}
use ippper_rs.Server.Sessions.{HttpRequest, after_all, all_calls, after_all-Run}
use ippper_rs.Service.Simple.Info.{default_info}
use ippper_rs.Service.Simple.Runs.{Run}
use ippper_rs.Service.Simple.Sequential.{with_service}
use ippper_rs.Tests.Crates.{crates, crates-Documented}
use ippper_rs.Tests.Requests.{head, env, print_request, canceled_one, until_canceled}

-- A parser that finds one request in every body.
abbrev parse : BodyReader → Result (IppRequestResponse (List ℕ))
parse body = Error.ok print_request

-- A GET, and then two documents to print.
abbrev requests : List (HttpRequest (List ℕ))
requests =
    record { env = env; head = record head { post = false }; body = [] }
    ∷ record { env = env; head = head; body = bytes (1 ∷ []) ∷ [] }
    ∷ record { env = env; head = head; body = bytes (2 ∷ []) ∷ [] }
    ∷ []

after_all-Run_example :
    Run crates canceled_one
      (with_service crates canceled_one (after_all crates parse requests canceled_one.service))
      (all_calls crates parse requests canceled_one.service)
after_all-Run_example =
    after_all-Run crates-Documented parse default_info requests canceled_one until_canceled

-- A connection is named by its first byte, 0 if it cannot be peeked at; TLS fails.
abbrev net : Network ℕ
net = record {
  peek = λ c n. if eqb c 0 then err "reset" else ok (c ∷ []);
  accept_tls = λ c. err "bad handshake";
  serve_connection = λ c. ok tt;
}

abbrev accepts : List (IoResult ℕ)
accepts = ok 71 ∷ err "too many open files" ∷ ok 22 ∷ ok 0 ∷ []

serve_adaptive_https-ServesAll_example :
    (tasks : List (Served ℕ)) × (serve_adaptive_https net (ok tt) accepts ≡ ok tasks)
    × ServesAll net accepts tasks
serve_adaptive_https-ServesAll_example = serve_adaptive_https-ServesAll net accepts
