-- ===== src/Service/Simple/UrlLaws.antt =====
-- What `make_url` of service/simple.rs does with slashes and ports.
use Prim.Native.String.{String, [], ◌∷◌}
use text.Mathlib.TextLemmas.{nil-append, cons-append}
use ippper_rs.Prelude.{
  ℕ, ◌≡◌, refl, ap, true, ◌||◌, Option, none, some, arith, unwrap_or, concat, contains_char,
  trim_start, trim_end, last_piece,
}
use ippper_rs.Ipp.Http.{ReqParts, HeaderValue, to_str}
use ippper_rs.Service.Simple.Url.{url_host, bare_basepath, make_url}

trim_end-slash : (b : String) → trim_end b'/' (concat b "/") ≡ trim_end b'/' b
unfolding trim_end
trim_end-slash [] = refl
trim_end-slash (c ∷ s) = rw cons-append (rw (trim_end-slash s, trim_end) refl)

bare_basepath-slash_after : (b : String) → bare_basepath (concat b "/") ≡ bare_basepath b
unfolding bare_basepath trim_start
bare_basepath-slash_after [] = refl
bare_basepath-slash_after (c ∷ s) = rw cons-append (
    ground (
      arith,
      bare_basepath-slash_after s,
      ap (trim_end b'/') (cons-append c s "/"),
      trim_end-slash (c ∷ s),
    ))

bare_basepath-slash_before : (b : String) → bare_basepath (concat "/" b) ≡ bare_basepath b
unfolding bare_basepath trim_start
bare_basepath-slash_before b = rw (cons-append, nil-append) refl

-- Slashes at either end of the base path make no difference to a URL.
pub make_url-slashes :
    (host b : String) (head : ReqParts) (path : String)
    → (make_url host (concat b "/") head path ≡ make_url host b head path)
      × (make_url host (concat "/" b) head path ≡ make_url host b head path)
unfolding make_url
make_url-slashes host b head path =
    (rw (bare_basepath-slash_after b) refl, rw (bare_basepath-slash_before b) refl)

contains_char-append :
    (k : ℕ) (s t : String) → contains_char k (concat s t) ≡ (contains_char k s || contains_char k t)
unfolding contains_char
contains_char-append k [] t = rw nil-append refl
contains_char-append k (c ∷ s) t = rw cons-append (ground (arith, contains_char-append k s t))

-- If the service's own host has a port, so has the host of every URL, whatever host the request
-- names.
pub url_host-port :
    (own : String) (value : Option HeaderValue)
    → contains_char b':' own ≡ true
    → contains_char b':' (url_host own value) ≡ true
unfolding url_host contains_char
url_host-port own none h = h
url_host-port own (some value) h =
    let from_user = unwrap_or (to_str value) own in
    ground (
      arith,
      contains_char-append b':' from_user (concat ":" (last_piece b':' own)),
      contains_char-append b':' ":" (last_piece b':' own),
    )
