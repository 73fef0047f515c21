-- ===== src/Ipp/Http.antt =====
-- What the program reads of `http::Request`: the method, two headers and the scheme of the URI. A
-- header value is a text of visible characters, or bytes that `to_str` refuses.
use ippper_rs.Prelude.{ℕ, String, Bool, false, Option, none, some, ◌==◌}

pub data HeaderValue : Type 0 where
  visible : String → HeaderValue
  unreadable : ℕ → HeaderValue

abbrev pub to_str : HeaderValue → Option String
to_str (visible s) = some s
to_str (unreadable _) = none

-- Whether a header is there and is the given text.
abbrev pub header_is : Option HeaderValue → String → Bool
header_is (some (visible s)) t = s == t
header_is _ t = false

-- `http::request::Parts`.
pub record ReqParts : Type 0 where
  pub post : Bool
  pub content_type : Option HeaderValue
  pub host : Option HeaderValue
  pub scheme : Option String
