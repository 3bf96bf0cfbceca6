-- ===== src/Service/Host.antt =====
-- src/service/host.rs: the middleware that sets the Host header.
pub mod Sets
use hyperdriver.Base.{
  Bool, true, false, if◌then◌else◌, ◌==◌, ◌||◌, ◌&&◌, not, Option, none, some, String, str_eq,
  str_append, Outcome, value, panic, ◌>>=◌,
}
use hyperdriver.Http.{
  Http, Request, Port, Version, http_09, http_10, http_11, http_2, http_3, expect,
}
use hyperdriver.Info.{HttpProtocol, same_protocol, http1}

-- `version < HTTP_2`.
abbrev pub before_http_2 : Version → Bool
before_http_2 http_09 = true
before_http_2 http_10 = true
before_http_2 http_11 = true
before_http_2 http_2 = false
before_http_2 http_3 = false

module _ (h : Http) where
  -- `matches!(scheme_str, "wss" | "https")`, or `false` for no scheme.
  secure_scheme : Option String → Bool
  secure_scheme none = false
  secure_scheme (some s) = str_eq s "wss" || str_eq s "https"

  -- `is_schema_secure`.
  pub is_schema_secure : h.Uri → Bool
  unfolding secure_scheme
  is_schema_secure uri = secure_scheme (h.scheme uri)

  -- The match of `get_non_default_port`.
  keep_port : Bool → Option Port → Option Port
  keep_port secure none = none
  keep_port secure (some p) =
      if p.as_u16 == 443 && secure
      then none
      else if p.as_u16 == 80 && not secure
      then none
      else some p

  -- `get_non_default_port`.
  pub get_non_default_port : h.Uri → Option Port
  unfolding keep_port is_schema_secure
  get_non_default_port uri = keep_port (is_schema_secure uri) (h.port uri)

  -- The text of the header for a host and a port that is not the default one.
  pub host_text : String → Option Port → String
  host_text hostname none = hostname
  host_text hostname (some p) = str_append hostname (str_append ":" p.as_str)

  -- `entry(HOST).or_insert_with(..)`, with the header that is there.
  or_insert_host : Option String → String → Option Port → h.HeaderMap → Outcome h.HeaderMap
  unfolding host_text
  or_insert_host (some v) hostname port headers = value headers
  or_insert_host none hostname port headers =
      expect (h.header_value (host_text hostname port)) >>= (λ v. value (h.insert "host" v headers))

  module _ {B : Type 0} where
    set_host : Option String → Request h B → Outcome (Request h B)
    unfolding or_insert_host get_non_default_port
    set_host none req = value req
    set_host (some hostname) req =
        or_insert_host (h.get req.headers "host") hostname (get_non_default_port req.uri)
          req.headers
        >>= (λ headers. value (record req { headers = headers }))

    -- `set_host_header`.
    pub set_host_header : Request h B → Outcome (Request h B)
    unfolding set_host
    set_host_header req = set_host (h.host req.uri) req

    -- `SetHostHeader::call` on a request.
    pub call_request : Request h B → Outcome (Request h B)
    call_request req = if before_http_2 req.version then set_host_header req else value req

    -- `SetHostHeader::call` on a connection, here its protocol, and a request.
    unfoldable pub call_connection : HttpProtocol → Request h B → Outcome (Request h B)
    call_connection protocol req =
        if same_protocol protocol http1 then set_host_header req else value req
