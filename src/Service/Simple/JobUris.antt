-- ===== src/Service/Simple/JobUris.antt =====
-- The URIs under which service/simple.rs presents jobs tell them apart.
use text.Mathlib.TextLemmas.{append_cancel_left}
use ippper_rs.Prelude.{
  ℕ, ◌+◌, ◌<◌, ◌≡◌, ◌≢◌, String, ◌||◌, false, unwrap_or, concat, is_empty, starts_with_char,
  starts_with_char-append, is_empty-append, IsShort, show_i32-injective, to_i32, arith,
}
use ippper_rs.Ipp.Http.{ReqParts}
use ippper_rs.Ipp.External.{External, Documented}
use ippper_rs.Service.Simple.Info.{PrinterInfo}
use ippper_rs.Service.Simple.Url.{make_url, url_host, bare_basepath, slash_before}
use ippper_rs.Service.Simple.JobAttributes.{job_uri}
use ippper_rs.Service.Simple.World.{World, Reach, start}
use ippper_rs.Service.Simple.Life.{ids_differ}
use ippper_rs.Service.Simple.Steps.{reachable-IsConsistent}

-- The path of a job takes a slash before it.
no_slash :
    (x : String) → (starts_with_char b'/' (concat "job/" x) || is_empty (concat "job/" x)) ≡ false
no_slash x = ground (arith, starts_with_char-append b'/' "job/" x, is_empty-append "job/" x)

make_url-injective :
    (host b : String) (head : ReqParts) (x y : String)
    → make_url host b head (concat "job/" x) ≡ make_url host b head (concat "job/" y)
    → x ≡ y
unfolding make_url slash_before
make_url-injective host b head x y e =
    let base = bare_basepath b in
    let with_slash = append_cancel_left base _ _ (
      append_cancel_left (slash_before (is_empty base)) _ _ (
        append_cancel_left (url_host host head.host) _ _ (
          append_cancel_left "://" _ _
            (append_cancel_left (unwrap_or head.scheme "ipp") _ _ e)))) in
    append_cancel_left "job/" x y
      (append_cancel_left "/" _ _ (rw (no_slash x, no_slash y) at with_slash))

to_i32-IsShort : (n : ℕ) → IsShort (to_i32 n)
unfolding to_i32
to_i32-IsShort n = ground arith

module _ {P : Type 0} {ext : External P} (doc : Documented ext) where
  -- In a service reached from a new one, the URIs of two jobs, as one request sees them, differ if
  -- one job was allocated less than 2^32 allocations after the other.
  pub job_uris_differ :
      (info : PrinterInfo) (w : World) (h i : ℕ) (head : ReqParts)
      → Reach ext (start info) w
      → h < i
      → i < w.service.allocated
      → i < h + 4294967296
      → job_uri ext w.service.host w.service.basepath head (w.service.cells h)
        ≢ job_uri ext w.service.host w.service.basepath head (w.service.cells i)
  unfolding job_uri
  job_uris_differ info w h i head r lt used near same =
      let c = reachable-IsConsistent doc info w r in
      let id_h = c.ids h (omega arith) in
      let id_i = c.ids i used in
      ids_differ doc info w h i r lt used near (
        show_i32-injective _ _ (rw id_h (to_i32-IsShort (1000 + h)))
          (rw id_i (to_i32-IsShort (1000 + i)))
          (make_url-injective w.service.host w.service.basepath head _ _ same))
