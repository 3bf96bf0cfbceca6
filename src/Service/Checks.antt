-- ===== src/Service/Checks.antt =====
-- src/service/http.rs: what the client checks and changes in a request for the connection's protocol.
pub mod Forms
pub mod Http2
use hyperdriver.Base.{
  ◌≡◌, Bool, true, false, not, if◌then◌else◌, ◌&&◌, ◌||◌, List, [], ◌∷◌, Option, none, some,
  is_some, String, str_eq, Result, ok, err, Outcome, value, panic, ◌>>=◌, Poll, ready, pending,
  map_err, map_ready,
}
use hyperdriver.Http.{Http, Request, Method, connect, other, Version, http_2, Parts, expect}
use hyperdriver.Info.{HttpProtocol, same_protocol, http1, http2}

-- `debug` says whether the program is built with debug assertions.
module _ (h : Http) (debug : Bool) where
  assert : Bool → Outcome (Unit {0})
  assert b = if debug && not b then panic else value tt

  authority_parts : Option String → Outcome h.Uri
  authority_parts none = panic
  authority_parts (some a) =
      expect (h.from_parts (record { scheme = none; authority = some a; path_and_query = none }))

  -- `authority_form`.
  pub authority_form : h.Uri → Outcome h.Uri
  unfolding authority_parts
  authority_form uri = authority_parts (h.authority uri)

  -- `absolute_form`.
  pub absolute_form : h.Uri → Outcome h.Uri
  unfolding assert
  absolute_form uri =
      assert (is_some (h.scheme uri))
      >>= (λ _. assert (is_some (h.authority uri)) >>= (λ _. value uri))

  path_parts : Option String → Outcome h.Uri
  path_parts none = value h.default
  path_parts (some p) =
      if str_eq p "/"
      then value h.default
      else expect
          (h.from_parts (record { scheme = none; authority = none; path_and_query = some p }))

  -- `origin_form`; the assertion on `Uri::default()` is one of the http crate's laws.
  pub origin_form : h.Uri → Outcome h.Uri
  unfolding path_parts
  origin_form uri = path_parts (h.path_and_query uri)

  is_https : Option String → Bool
  is_https none = false
  is_https (some s) = str_eq s "https"

  abbrev pub is_connect : Method → Bool
  is_connect connect = true
  is_connect (other m) = false

  -- The URI that `check_http1_request` writes.
  http1_uri : Bool → h.Uri → Outcome h.Uri
  unfolding authority_form absolute_form origin_form is_https
  http1_uri true uri =
      authority_form uri >>= (λ u. if is_https (h.scheme u) then origin_form u else value u)
  http1_uri false uri =
      if not (is_some (h.scheme uri)) || not (is_some (h.authority uri))
      then absolute_form uri
      else origin_form uri

  -- `check_http1_request`.
  unfoldable pub check_http1_request :
      {B : Type 0} → HttpProtocol → Request h B → Outcome (Request h B)
  unfolding http1_uri
  check_http1_request protocol req =
      if same_protocol protocol http1
      then http1_uri (is_connect req.method) req.uri >>= (λ u. value (record req { uri = u }))
      else value req

-- `CONNECTION_HEADERS`.
abbrev pub connection_headers : List String
connection_headers =
    "connection" ∷ "proxy-connection" ∷ "keep-alive" ∷ "transfer-encoding" ∷ "upgrade" ∷ []

-- `HttpRequestError`.
pub data HttpRequestError (E : Type 0) : Type 0 where
  invalid_method : Method → HttpRequestError E
  connection : E → HttpRequestError E

module _ (h : Http) where
  -- The loop over the connection headers.
  pub remove_all : List String → h.HeaderMap → h.HeaderMap
  remove_all [] headers = headers
  remove_all (n ∷ names) headers = remove_all names (h.remove n headers)

  module _ {B E : Type 0} where
    http2_request : Method → Request h B → Result (Request h B) (HttpRequestError E)
    unfolding remove_all
    http2_request connect req = err (invalid_method connect)
    http2_request (other m) req = ok (record req {
      version = http_2;
      headers = h.remove "host" (remove_all connection_headers req.headers);
    })

    -- `check_http2_request`.
    unfoldable pub check_http2_request :
        HttpProtocol → Request h B → Result (Request h B) (HttpRequestError E)
    unfolding http2_request
    check_http2_request protocol req =
        if same_protocol protocol http2 then http2_request req.method req else ok req

-- `Http2ChecksState`, over the future of the inner service.
pub data Http2ChecksState (Future E : Type 0) : Type 0 where
  service : Future → Http2ChecksState Future E
  error : Option (HttpRequestError E) → Http2ChecksState Future E

-- `Http2ChecksFuture::poll`; `poll_inner` polls the inner future.
pub poll :
    {Future A E : Type 0}
    → (Future → Poll (Result A E) × Future)
    → Http2ChecksState Future E
    → Outcome (Poll (Result A (HttpRequestError E))) × Http2ChecksState Future E
poll poll_inner (service f) =
    let (result, f') = poll_inner f in (value (map_ready (map_err connection) result), service f')
poll poll_inner (error none) = (panic, error none)
poll poll_inner (error (some e)) = (value (ready (err e)), error none)

-- `Http2ChecksService::call`, with what the check made of the request.
pub call :
    {A Future E : Type 0} → (A → Future) → Result A (HttpRequestError E) → Http2ChecksState Future E
call call_inner (ok req) = service (call_inner req)
call call_inner (err e) = error (some e)
