-- ===== src/Service/Simple/Url.antt =====
-- `SimpleIppService::make_url` of service/simple.rs.
use ippper_rs.Prelude.{
  String, Bool, not, ◌||◌, ◌&&◌, Option, none, some, unwrap_or, if◌then◌else◌, is_empty, concat,
  starts_with_char, contains_char, trim_start, trim_end, last_piece,
}
use ippper_rs.Ipp.Http.{ReqParts, HeaderValue, to_str}

-- The host that the request names, with the port of the service's own host if it names none.
unfoldable pub url_host : String → Option HeaderValue → String
unfolding contains_char last_piece
url_host own none = own
url_host own (some value) =
    let from_user = unwrap_or (to_str value) own in
    if not (contains_char b':' from_user) && contains_char b':' own
    then concat from_user (concat ":" (last_piece b':' own))
    else from_user

-- The base path without the slashes round it.
unfoldable pub bare_basepath : String → String
unfolding trim_start trim_end
bare_basepath basepath = trim_end b'/' (trim_start b'/' basepath)

unfoldable pub slash_before : Bool → String
slash_before absent = if absent then "" else "/"

unfoldable pub make_url : String → String → ReqParts → String → String
unfolding url_host bare_basepath slash_before
make_url own_host basepath head path =
    let base = bare_basepath basepath in
    let scheme = unwrap_or head.scheme "ipp" in
    concat scheme (
      concat "://" (
        concat (url_host own_host head.host) (
          concat (slash_before (is_empty base)) (
            concat base
              (concat (slash_before (starts_with_char b'/' path || is_empty path)) path)))))
