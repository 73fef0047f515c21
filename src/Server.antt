-- ===== src/Server.antt =====
-- server/mod.rs: the server that accepts connections and gives each to a task of its own.
pub mod Laws
pub mod Sessions
use ippper_rs.Prelude.{ℕ, String, List, [], ◌∷◌, Option, none, some, eqb, not, if◌then◌else◌}
use ippper_rs.Ipp.Attributes.{IppRequestResponse}
use ippper_rs.Ipp.Http.{ReqParts}
use ippper_rs.Ipp.External.{External}
use ippper_rs.Error.{Result}
use ippper_rs.Service.Common.{IppService}
use ippper_rs.Stream.Poll.{IoResult, ok, err}
use ippper_rs.Stream.BodyReader.{BodyReader, FramePoll}
use ippper_rs.Handler.{HttpResponse, handle_ipp_via_http}

-- What tokio, hyper and rustls do with a connection: `peek` into a buffer of some length, the
-- `accept` of a `TlsAcceptor`, and `serve_connection` with the service.
pub record Network (C : Type 0) : Type 0 where
  pub peek : C → ℕ → IoResult (List ℕ)
  pub accept_tls : C → IoResult C
  pub serve_connection : C → IoResult (Unit {0})

-- What becomes of a connection: its task ends with an error, which is logged, or it has been served
-- on a stream.
pub data Served (C : Type 0) : Type 0 where
  peek_failed tls_failed : String → Served C
  served : C → IoResult (Unit {0}) → Served C

-- `[0u8; 1]` after `peek`.
unfoldable pub first_byte : List ℕ → ℕ
first_byte [] = 0
first_byte (b ∷ bs) = b

-- `wrap_as_http_service`: a request goes to the service that all connections share.
unfoldable pub wrap_as_http_service :
    {P S : Type 0}
    → External P
    → (BodyReader → Result (IppRequestResponse P))
    → IppService S P
    → ReqParts
    → List FramePoll
    → S
    → Result (HttpResponse P) × S
wrap_as_http_service ext parse ipp_service head body s =
    handle_ipp_via_http ext parse ipp_service head body s

module _ {C : Type 0} (net : Network C) where
  -- The task of a connection in `serve_http`.
  unfoldable pub serve_plain : C → Served C
  serve_plain stream = served stream (net.serve_connection stream)

  unfoldable pub serve_tls : IoResult C → Served C
  serve_tls (ok stream) = served stream (net.serve_connection stream)
  serve_tls (err e) = tls_failed e

  -- The rest of the task of a connection in `serve_adaptive_https`: 22 begins a TLS handshake.
  unfoldable pub serve_peeked : C → IoResult (List ℕ) → Served C
  unfolding first_byte serve_plain serve_tls
  serve_peeked stream (err e) = peek_failed e
  serve_peeked stream (ok header) =
      if not (eqb (first_byte header) 22)
      then serve_plain stream
      else serve_tls (net.accept_tls stream)

  unfoldable pub serve_adaptive : C → Served C
  unfolding serve_peeked
  serve_adaptive stream = serve_peeked stream (net.peek stream 1)

-- The loop over the answers of `accept`, with the task that is spawned for each connection: an error
-- is logged, and the loop goes on.
unfoldable pub accept_loop : {C : Type 0} → (C → Served C) → List (IoResult C) → List (Served C)
accept_loop task [] = []
accept_loop task (ok stream ∷ more) = task stream ∷ accept_loop task more
accept_loop task (err e ∷ more) = accept_loop task more

module _ {C : Type 0} (net : Network C) where
  -- The tasks that a server has spawned after some answers of `accept`; the error of `bind` is
  -- returned.
  unfoldable pub serve_http : IoResult (Unit {0}) → List (IoResult C) → IoResult (List (Served C))
  unfolding accept_loop serve_plain
  serve_http (err e) accepts = err e
  serve_http (ok _) accepts = ok (accept_loop (serve_plain net) accepts)

  unfoldable pub serve_adaptive_https :
      IoResult (Unit {0}) → List (IoResult C) → IoResult (List (Served C))
  unfolding accept_loop serve_adaptive
  serve_adaptive_https (err e) accepts = err e
  serve_adaptive_https (ok _) accepts = ok (accept_loop (serve_adaptive net) accepts)

-- `ServerConfig` of rustls: the protocols that the program sets, and the rest.
pub record ServerConfig (X : Type 0) : Type 0 where
  pub alpn_protocols : List String
  pub rest : X

-- `filter_map(|cert| cert.ok())`.
unfoldable pub readable : {A : Type 0} → List (IoResult A) → List A
readable [] = []
readable (ok a ∷ more) = a ∷ readable more
readable (err e ∷ more) = readable more

module _ {Cert Key X : Type 0}
    (with_single_cert : List Cert → Key → IoResult (ServerConfig X)) where
  unfoldable pub set_alpn : IoResult (ServerConfig X) → IoResult (ServerConfig X)
  set_alpn (err e) = err e
  set_alpn (ok config) = ok (record config { alpn_protocols = "h2" ∷ "http/1.1" ∷ "http/1.0" ∷ [] })

  -- What `rustls_pemfile` has read of the certificates and of the key.
  unfoldable pub tls_config_from_reader :
      List (IoResult Cert) → IoResult (Option Key) → IoResult (ServerConfig X)
  unfolding readable set_alpn
  tls_config_from_reader certs (err e) = err e
  tls_config_from_reader certs (ok none) = err "No private key found"
  tls_config_from_reader certs (ok (some key)) = set_alpn (with_single_cert (readable certs) key)
