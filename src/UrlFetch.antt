-- ===== src/UrlFetch.antt =====
-- backend/app/services/url_fetch.py: fetching a page, one checked hop at a time. urlparse and urljoin, the
-- resolver and ipaddress, and httpx are the record Network; the client that is shared between calls is left
-- out, and so is the ValueError that urllib raises for a malformed location.
pub mod Guard
use support_flow.Prelude.{
  ℕ, zero, suc, ◌+◌, ◌*◌, Bool, true, false, not, Option, none, some, List, [], ◌∷◌, ◌++◌, ◌||◌,
  leb, ltb, length, any_of, if◌then◌else◌,
}
use support_flow.Text.{Text, codes}
use support_flow.Text.Utf8.{Bytes}
use support_flow.Document.Extract.{text_eq, normalize_content_type, is_readable}

abbrev pub max_redirects : ℕ
max_redirects = 5

abbrev pub max_url_bytes : ℕ
max_url_bytes = 5 * 1024 * 1024

abbrev pub max_url_chars : ℕ
max_url_chars = 1000

-- What ipaddress says of an address.
pub record Address : Type 0 where
  pub is_global : Bool
  pub is_multicast : Bool

-- `getaddrinfo` gives addresses or raises `gaierror`.
pub data Lookup : Type 0 where
  addresses : List Address → Lookup
  lookup_failed : Lookup

-- What a GET comes to: `httpx.HTTPError`, a redirect with its location, or a status with its content type and
-- the pieces of its body.
pub data Response : Type 0 where
  unreachable : Response
  redirect : Option Text → Response
  answered : ℕ → Option Text → List Bytes → Response

-- The scheme in lower case, and the host; empty where there is none.
pub record Network : Type 0 where
  pub scheme : Text → Text
  pub hostname : Text → Text
  pub urljoin : Text → Text → Text
  pub resolve : Text → Lookup
  pub get : Text → Response

-- The reasons of UrlFetchError.
pub data UrlFetchError : Type 0 where
  bad_scheme no_host unresolved not_routable no_location long_url unreadable_type too_large
        not_reached :
      UrlFetchError
  too_many_redirects : UrlFetchError
  http_status : ℕ → UrlFetchError

pub record FetchedPage : Type 0 where
  pub url : Text
  pub content_type : Text
  pub body : Bytes

-- A call returns, raises UrlFetchError, or raises an OSError that nothing here catches.
pub data Fetch (A : Type 0) : Type 0 where
  fetched : A → Fetch A
  refused : UrlFetchError → Fetch A
  crashed : Fetch A

abbrev pub then_fetch : {A B : Type 0} → Fetch A → (A → Fetch B) → Fetch B
then_fetch (fetched a) f = f a
then_fetch (refused e) f = refused e
then_fetch crashed f = crashed

-- `if test: raise UrlFetchError(…)`
abbrev pub refuse_if : Bool → UrlFetchError → Fetch Unit
refuse_if true e = refused e
refuse_if false e = fetched tt

abbrev pub is_http : Text → Bool
is_http scheme = text_eq scheme (codes "http") || text_eq scheme (codes "https")

abbrev pub is_empty : {A : Type 0} → List A → Bool
is_empty [] = true
is_empty (x ∷ xs) = false

-- `_parse`, whose host is all that is used.
unfoldable pub parse : Network → Text → Fetch Text
unfolding text_eq
parse network url =
    then_fetch (refuse_if (not (is_http (network.scheme url))) UrlFetchError.bad_scheme) λ _.
      then_fetch (refuse_if (is_empty (network.hostname url)) UrlFetchError.no_host)
        λ _. fetched (network.hostname url)

abbrev pub is_private : Address → Bool
is_private a = a.is_multicast || not a.is_global

abbrev pub check_addresses : Lookup → Fetch Unit
check_addresses lookup_failed = crashed
check_addresses (addresses as') =
    then_fetch (refuse_if (is_empty as') UrlFetchError.unresolved)
      λ _. refuse_if (any_of is_private as') UrlFetchError.not_routable

-- `_assert_routable` with `_resolve`
unfoldable pub assert_routable : Network → Text → Fetch Unit
assert_routable network host = check_addresses (network.resolve host)

-- What each hop begins with.
unfoldable pub check_hop : Network → Text → Fetch Unit
unfolding parse assert_routable
check_hop network url = then_fetch (parse network url) (assert_routable network)

-- The loop of `_read_capped` with what it has read so far.
unfoldable pub read_from : ℕ → List Bytes → Fetch Bytes
read_from total [] = fetched []
read_from total (piece ∷ pieces) =
    let rest = read_from (total + length piece) pieces in
    then_fetch (refuse_if (ltb max_url_bytes (total + length piece)) UrlFetchError.too_large)
      λ _. then_fetch rest λ more. fetched (piece ++ more)

-- `_read_capped`
unfoldable pub read_capped : List Bytes → Fetch Bytes
unfolding read_from
read_capped pieces = read_from 0 pieces

abbrev pub header : Option Text → Text
header none = []
header (some declared) = normalize_content_type declared

-- The end of `fetch`, on an answer that is no redirect.
unfoldable pub page_of : Text → ℕ → Option Text → List Bytes → Fetch FetchedPage
unfolding normalize_content_type is_readable read_capped
page_of url status content_type pieces =
    then_fetch (refuse_if (leb 400 status) (UrlFetchError.http_status status)) λ _.
      then_fetch (refuse_if (not (is_readable (header content_type))) UrlFetchError.unreadable_type)
        λ _.
          then_fetch (read_capped pieces)
            λ body. fetched (record { url = url; content_type = header content_type; body = body })

-- A result with the URLs that were requested for it, in order.
abbrev pub Requests : Type 0
Requests = Fetch FetchedPage × List Text

abbrev pub unless_long : Bool → Requests → Requests
unless_long true r = (refused UrlFetchError.long_url, [])
unless_long false r = r

-- One response, and `follow` for the next round of the loop.
abbrev pub on_response : Network → Text → (Text → Requests) → Response → Requests
on_response network current follow unreachable = (refused UrlFetchError.not_reached, [])
on_response network current follow (redirect none) = (refused UrlFetchError.no_location, [])
on_response network current follow (redirect (some [])) = (refused UrlFetchError.no_location, [])
on_response network current follow (redirect (some (c ∷ location))) =
    unless_long (ltb max_url_chars (length (network.urljoin current (c ∷ location))))
      (follow (network.urljoin current (c ∷ location)))
on_response network current follow (answered status content_type pieces) =
    (page_of current status content_type pieces, [])

abbrev pub requested : Text → Requests → Requests
requested url (r, urls) = (r, url ∷ urls)

abbrev pub if_passed : Fetch Unit → Requests → Requests
if_passed (fetched _) r = r
if_passed (refused e) r = (refused e, [])
if_passed crashed r = (crashed, [])

-- The loop of `fetch` with the rounds that are left.
unfoldable pub fetch_from : Network → ℕ → Text → Requests
unfolding check_hop page_of
fetch_from network zero current = (refused UrlFetchError.too_many_redirects, [])
fetch_from network (suc left) current = if_passed (check_hop network current) (
    requested current
      (on_response network current (λ next. fetch_from network left next) (network.get current)))

unfoldable pub fetch : Network → Text → Requests
unfolding fetch_from
fetch network url = fetch_from network (suc max_redirects) url
