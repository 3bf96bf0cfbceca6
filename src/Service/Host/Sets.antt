-- ===== src/Service/Host/Sets.antt =====
-- The Host header is set from the URI, without a default port, unless there is one.
use hyperdriver.Base.{
  ◌≡◌, refl, ◌∙◌, ◌≢◌, ◌⊎◌, inl, inr, Bool, true, false, not, if◌then◌else◌, ◌==◌, ◌&&◌, Option,
  none, some, or_else, String, str_eq, Bool-cases, Outcome, value, ◌>>=◌, eq_iff,
}
use hyperdriver.Http.{Http, Request, Port}
use hyperdriver.Info.{http1, http2, http3}
use hyperdriver.Service.Host.{
  keep_port, is_schema_secure, get_non_default_port, host_text, or_insert_host, set_host,
  set_host_header, call_connection,
}

keep_either :
    (secure a b : Bool) (o : Option Port)
    → (if a && secure then none else (if b && not secure then none else o))
      ≡ (if (if secure then a else b) then none else o)
keep_either true true b o = refl
keep_either true false true o = refl
keep_either true false false o = refl
keep_either false true true o = refl
keep_either false true false o = refl
keep_either false false true o = refl
keep_either false false false o = refl

module _ (h : Http) where
  keep_port-cases :
      (secure : Bool) (o : Option Port)
      → (keep_port h secure o ≡ none)
        ⊎ ((p : Port) × (o ≡ some p) × (keep_port h secure o ≡ some p))
  unfolding keep_port
  keep_port-cases secure none = inl refl
  keep_port-cases secure (some p) = elim (Bool-cases (p.as_u16 == 443 && secure)) [
    | inl e ↦ inl (rw e refl)
    | inr e ↦ elim (Bool-cases (p.as_u16 == 80 && not secure)) [
      | inl k ↦ inl (rw (e, k) refl)
      | inr k ↦ inr (p, refl, rw (e, k) refl)
    ]
  ]

  -- The text is a valid header value, whether or not the port is part of it.
  host_text-valid :
      (u : h.Uri) (n : String)
      → h.host u ≡ some n
      → h.header_value (host_text h n (get_non_default_port h u))
        ≡ some (host_text h n (get_non_default_port h u))
  unfolding host_text get_non_default_port
  host_text-valid u n e = elim (keep_port-cases (is_schema_secure h u) (h.port u)) [
    | inl k ↦ rw k (h.host_value u n e)
    | inr (p, k, kept) ↦ rw kept (h.host_port_value u n p e k)
  ]

  -- A Host header is there: the one that was, or else the text of the URI's host and port.
  pub record HostSet {B : Type 0} (n : String) (req req' : Request h B) : Type 0 where
    pub host :
        h.get req'.headers "host"
        ≡ or_else (h.get req.headers "host") (some (host_text h n (get_non_default_port h req.uri)))
    pub others : (k : String) → "host" ≢ k → h.get req'.headers k ≡ h.get req.headers k
    pub method : req'.method ≡ req.method
    pub uri : req'.uri ≡ req.uri
    pub version : req'.version ≡ req.version
    pub body : req'.body ≡ req.body

  other_name : (k : String) → "host" ≢ k → str_eq "host" k ≡ false
  other_name k e = elim (Bool-cases (str_eq "host" k)) [
    | inl same ↦ absurd (e ((eq_iff "host" k).0 same))
    | inr differs ↦ differs
  ]

  module _ {B : Type 0} where
    insert-HostSet :
        (n : String) (req : Request h B)
        → h.get req.headers "host" ≡ none
        → HostSet n req (record req {
          headers = h.insert "host" (host_text h n (get_non_default_port h req.uri)) req.headers;
        })
    insert-HostSet n req missing = record {
      host = h.get-insert _ _ _ "host" ∙ rw missing refl;
      others = λ k e. h.get-insert _ _ _ k ∙ rw (other_name k e) refl;
      method = refl;
      uri = refl;
      version = refl;
      body = refl;
    }

    or_insert-HostSet :
        (n : String) (req : Request h B) (old : Option String)
        → h.host req.uri ≡ some n
        → h.get req.headers "host" ≡ old
        → (req' : Request h B) × (or_insert_host h old n
                (get_non_default_port h req.uri)
                req.headers
              >>= (λ headers. value (record req { headers = headers }))
            ≡ value req')
          × HostSet n req req'
    unfolding or_insert_host
    or_insert-HostSet n req (some v) e k = (
      req,
      refl,
      record {
        host = rw k refl;
        others = λ _ _. refl;
        method = refl;
        uri = refl;
        version = refl;
        body = refl;
      },
    )
    or_insert-HostSet n req none e k =
        (_, rw (host_text-valid req.uri n e) refl, insert-HostSet n req k)

    -- What setting the header makes of a request, by the host of its URI.
    abbrev pub SetsHost : Option String → Request h B → Outcome (Request h B) → Type 0
    SetsHost none req o = o ≡ value req
    SetsHost (some n) req o = (req' : Request h B) × (o ≡ value req') × HostSet n req req'

    set_host-SetsHost :
        (o : Option String) (req : Request h B)
        → h.host req.uri ≡ o
        → SetsHost o req (set_host h o req)
    unfolding set_host
    set_host-SetsHost none req e = refl
    set_host-SetsHost (some n) req e = or_insert-HostSet n req _ e refl

    -- Setting the Host header never panics. Where the URI has a host, the request then has a Host
    -- header: its own if it had one, else the host, with the port unless that is the default one;
    -- nothing else changes. Where the URI has none, the request stays as it is.
    pub set_host_header-SetsHost :
        (req : Request h B) → SetsHost (h.host req.uri) req (set_host_header h req)
    unfolding set_host_header
    set_host_header-SetsHost req = set_host-SetsHost (h.host req.uri) req refl

  default_port :
      (secure : Bool) (p : Port)
      → keep_port h secure (some p)
        ≡ (if p.as_u16 == (if secure then 443 else 80) then none else some p)
  unfolding keep_port
  default_port true p = keep_either true (p.as_u16 == 443) (p.as_u16 == 80) (some p)
  default_port false p = keep_either false (p.as_u16 == 443) (p.as_u16 == 80) (some p)

  pub call_connection-http1 :
      {B : Type 0} (req : Request h B) → call_connection h http1 req ≡ set_host_header h req
  unfolding call_connection
  call_connection-http1 req = refl

  pub call_connection-http2 :
      {B : Type 0} (req : Request h B) → call_connection h http2 req ≡ value req
  unfolding call_connection
  call_connection-http2 req = refl

  pub call_connection-http3 :
      {B : Type 0} (req : Request h B) → call_connection h http3 req ≡ value req
  unfolding call_connection
  call_connection-http3 req = refl

  -- The port is left out exactly if it is the scheme's default: 443 for https and wss, else 80.
  pub get_non_default_port_lem :
      (u : h.Uri) (p : Port)
      → h.port u ≡ some p
      → get_non_default_port h u
        ≡ (if p.as_u16 == (if is_schema_secure h u then 443 else 80) then none else some p)
  unfolding get_non_default_port
  get_non_default_port_lem u p e = rw e (default_port (is_schema_secure h u) p)
