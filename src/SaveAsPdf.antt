-- ===== src/SaveAsPdf.antt =====
-- examples/save_as_pdf.rs: a printer that saves each document to one file.
pub mod Laws
pub mod OverHttp
use ippper_rs.Prelude.{ℕ, String, List, [], ◌∷◌, Option, none, some, map_option, and_then, pos}
use ippper_rs.Ipp.Attributes.{IppRequestResponse}
use ippper_rs.Ipp.Http.{ReqParts}
use ippper_rs.Ipp.External.{External}
use ippper_rs.Error.{other, Result}
use ippper_rs.Error
use ippper_rs.Model.{Resolution, portrait, landscape}
use ippper_rs.Service.Simple.Info.{PrinterInfo, SimpleIppDocument, default_info}
use ippper_rs.Service.Simple.State.{SimpleIppService, new}
use ippper_rs.Service.Simple.Documents.{Ambient}
use ippper_rs.Service.Simple.Handlers.{simple_service}
use ippper_rs.Stream.Poll.{IoResult, ok, err}
use ippper_rs.Stream.BodyReader.{BodyReader, FramePoll}
use ippper_rs.Handler.{HttpResponse}
use ippper_rs.Server.{
  Network, Served, ServerConfig, tls_config_from_reader, serve_adaptive_https, wrap_as_http_service,
}

-- What tokio does with files, by the state W of the file system: `File::create`, and `io::copy` of a
-- payload into a file.
pub record FileSystem (W F P : Type 0) : Type 0 where
  pub create : String → W → IoResult F × W
  pub copy : P → F → W → IoResult ℕ × W

abbrev pub file_name : String
file_name = "D:\\1.pdf"

module _ {W F P : Type 0} (files : FileSystem W F P) where
  abbrev pub copied : IoResult ℕ × W → Result (Unit {0}) × W
  copied (err e, w) = (Error.err (other e), w)
  copied (ok n, w) = (Error.ok tt, w)

  abbrev pub created : P → IoResult F × W → Result (Unit {0}) × W
  created payload (err e, w) = (Error.err (other e), w)
  created payload (ok file, w) = copied (files.copy payload file w)

  -- `MyHandler::handle_document`: its outcome, and the files after it.
  unfoldable pub handle_document : SimpleIppDocument P → W → Result (Unit {0}) × W
  handle_document document w = created document.payload (files.create file_name w)

  -- What requests meet at some time, with this handler and the files as they are then.
  abbrev pub with_handler : Ambient P → W → Ambient P
  with_handler env w = record env { handle_document = λ document. (handle_document document w).0 }

-- The printer that `main` describes, by what `Uuid::parse_str` makes of a text; its `unwrap` gives
-- up on a text that is no UUID.
unfoldable pub info : (String → Option ℕ) → Option PrinterInfo
info parse_str =
    map_option
      (λ uuid. record default_info {
        uuid = some uuid;
        sides_supported = "one-sided" ∷ "two-sided-long-edge" ∷ "two-sided-short-edge" ∷ [];
        printer_resolution_supported =
            record { cross_feed = pos 300; feed = pos 300; units = pos 3 }
            ∷ record { cross_feed = pos 600; feed = pos 600; units = pos 3 }
            ∷ [];
        printer_resolution_default =
            some (record { cross_feed = pos 600; feed = pos 600; units = pos 3 });
        orientation_supported = portrait ∷ landscape ∷ [];
      })
      (parse_str "786a551c-65a3-43ce-89ba-33c51bae9bc2")

-- The HTTP service: what a request does that meets certain surroundings and files.
abbrev pub HttpService : Type 0 → Type 0 → Type 0
HttpService W P =
    Ambient P
    → W
    → ReqParts
    → List FramePoll
    → SimpleIppService
    → Result (HttpResponse P) × SimpleIppService

module _ {W F P C Cert Key X : Type 0} (ext : External P)
    (parse : BodyReader → Result (IppRequestResponse P)) (parse_str : String → Option ℕ)
    (files : FileSystem W F P) (with_single_cert : List Cert → Key → IoResult (ServerConfig X))
    (network : ServerConfig X → HttpService W P → SimpleIppService → Network C) where
  -- `expect` gives up if there is no TLS configuration.
  abbrev configured : IoResult (ServerConfig X) → Option (ServerConfig X)
  configured (err e) = none
  configured (ok config) = some config

  -- `main`, by what `bind` and `accept` answer; `none` if it gives up before it serves.
  unfoldable pub main :
      List (IoResult Cert)
      → IoResult (Option Key)
      → IoResult (Unit {0})
      → List (IoResult C)
      → Option (IoResult (List (Served C)))
  unfolding info
  main certificate key bind accepts = and_then (info parse_str) (λ info.
      map_option
        (λ config.
          let service : HttpService W P = λ env w.
            wrap_as_http_service ext parse (simple_service ext (with_handler files env w)) in
          serve_adaptive_https (network config service (new info)) bind accepts)
        (configured (tls_config_from_reader with_single_cert certificate key)))
