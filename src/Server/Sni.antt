-- ===== src/Server/Sni.antt =====
-- src/server/conn/tls/sni.rs: the middleware that compares a request's host with the name that the
-- client asked for in the TLS handshake.
pub mod Validates
use hyperdriver.Base.{
  ◌≡◌, Bool, true, false, not, if◌then◌else◌, Option, none, some, and_then, unwrap_or, String,
  str_eq, Result, ok, err, map_err,
}
use hyperdriver.Http.{Http, Request, Version, http_09, http_10, http_11, http_2, http_3}

-- The http crate on authorities: `Authority`'s `FromStr`, and `Authority::host`, which the
-- comparison is made on.
pub record Authorities : Type 0 where
  pub parse : String → Option String
  pub host : String → String

-- chateau's `TlsConnectionInfo`: the server name, and the mark that its `validated()` sets.
pub record TlsConnectionInfo : Type 0 where
  pub server_name : Option String
  pub validated : Bool

-- `ValidateSNIError`.
pub data ValidateSniError : Type 0 where
  invalid_sni : (host sni : String) → ValidateSniError
  missing_sni : (host : String) → ValidateSniError

-- `SNIMiddlewareError`.
pub data SniMiddlewareError (E : Type 0) : Type 0 where
  inner : E → SniMiddlewareError E
  sni : ValidateSniError → SniMiddlewareError E

abbrev pub is_http_2 : Version → Bool
is_http_2 http_09 = false
is_http_2 http_10 = false
is_http_2 http_11 = false
is_http_2 http_2 = true
is_http_2 http_3 = false

-- The tests of `handle` on the host and the server name, both parsed.
unfoldable pub compare_names :
    Authorities
    → Option String
    → Option String
    → TlsConnectionInfo
    → Option ValidateSniError × TlsConnectionInfo
compare_names a host none tls = (some (missing_sni (unwrap_or "-" host)), tls)
compare_names a none (some name) tls = (none, tls)
compare_names a (some host) (some name) tls =
    if not (str_eq (a.host host) (a.host name))
    then (some (invalid_sni host name), tls)
    else (none, record tls { validated = true })

unfoldable pub handle_tls :
    Authorities
    → Option String
    → Option TlsConnectionInfo
    → Option ValidateSniError × Option TlsConnectionInfo
unfolding compare_names
handle_tls a host none = (none, none)
handle_tls a host (some tls) =
    let (error, tls') = compare_names a host (and_then a.parse tls.server_name) tls in
    (error, some tls')

module _ (h : Http) (a : Authorities) {B : Type 0} where
  -- The host that the request names: its authority on HTTP/2, else its Host header.
  pub request_host : Request h B → Option String
  request_host req =
      if is_http_2 req.version
      then h.authority req.uri
      else and_then a.parse (and_then h.to_str (h.get req.headers "host"))

  -- `handle`; the second argument is the request's extension.
  unfoldable pub handle :
      Request h B → Option TlsConnectionInfo → Option ValidateSniError × Option TlsConnectionInfo
  unfolding handle_tls request_host
  handle req tls = handle_tls a (request_host req) tls

  answer :
      {A E : Type 0}
      → (Request h B → Option TlsConnectionInfo → Result A E)
      → Request h B
      → Option ValidateSniError × Option TlsConnectionInfo
      → Result A (SniMiddlewareError E)
  answer service req (some error, tls) = err (sni error)
  answer service req (none, tls) = map_err inner (service req tls)

  -- `ValidateSNIService::call`, when its future is ready; `service` is the inner one.
  pub call :
      {A E : Type 0}
      → (Request h B → Option TlsConnectionInfo → Result A E)
      → Request h B
      → Option TlsConnectionInfo
      → Result A (SniMiddlewareError E)
  unfolding answer handle
  call service req tls = answer service req (handle req tls)
