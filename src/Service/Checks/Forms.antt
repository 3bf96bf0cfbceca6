-- ===== src/Service/Checks/Forms.antt =====
-- The form of the URI that goes out on an HTTP/1 connection.
use hyperdriver.Base.{
  ◌≡◌, refl, sym, ap, ◌∙◌, Bool, true, false, Option, none, some, unwrap_or, String, str_eq, eq_iff,
  Bool-cases, inl, inr, Outcome, value, panic, ◌>>=◌,
}
use hyperdriver.Http.{Http, Request, Method, connect, other}
use hyperdriver.Info.{HttpProtocol, http1, http2, http3}
use hyperdriver.Service.Checks.{
  assert, authority_parts, authority_form, absolute_form, path_parts, origin_form, is_https,
  is_connect, http1_uri, check_http1_request,
}

module _ (h : Http) where
  -- Only the path of `u` is left, and it is "/" where `u` has none.
  pub record IsOriginOf (u u' : h.Uri) : Type 0 where
    pub scheme : h.scheme u' ≡ none
    pub authority : h.authority u' ≡ none
    pub path : h.path_and_query u' ≡ some (unwrap_or "/" (h.path_and_query u))

  path_parts-IsOriginOf :
      (debug : Bool) (u : h.Uri) (o : Option String)
      → h.path_and_query u ≡ o
      → (u' : h.Uri) × (path_parts h debug o ≡ value u') × IsOriginOf u u'
  unfolding path_parts
  path_parts-IsOriginOf debug u none e = (
    h.default,
    refl,
    record {
      scheme = h.default_scheme;
      authority = h.default_authority;
      path = rw e h.default_path;
    },
  )
  path_parts-IsOriginOf debug u (some p) e = elim (Bool-cases (str_eq p "/")) [
    | inl root ↦ (
      h.default,
      rw root refl,
      record {
        scheme = h.default_scheme;
        authority = h.default_authority;
        path = rw e (h.default_path ∙ ap some (sym ((eq_iff p "/").0 root)));
      },
    )
    | inr deep ↦
        let (u', made, scheme, authority, path) = h.from_path u p e in
        (
          u',
          rw (deep, made) refl,
          record { scheme = scheme; authority = authority; path = rw e path },
        )
  ]

  origin_form-IsOriginOf :
      (debug : Bool) (u : h.Uri)
      → (u' : h.Uri) × (origin_form h debug u ≡ value u') × IsOriginOf u u'
  unfolding origin_form
  origin_form-IsOriginOf debug u = path_parts-IsOriginOf debug u (h.path_and_query u) refl

  -- Only the authority of `u` is left.
  pub record IsAuthorityOf (u u' : h.Uri) : Type 0 where
    pub scheme : h.scheme u' ≡ none
    pub authority : h.authority u' ≡ h.authority u
    pub path : h.path_and_query u' ≡ none

  authority_form-IsAuthorityOf :
      (debug : Bool) (u : h.Uri) (a : String)
      → h.authority u ≡ some a
      → (u' : h.Uri) × (authority_form h debug u ≡ value u') × IsAuthorityOf u u'
  unfolding authority_form authority_parts
  authority_form-IsAuthorityOf debug u a e =
      let (u', made, scheme, authority, path) = h.from_authority u a e in
      (
        u',
        rw (e, made) refl,
        record { scheme = scheme; authority = authority ∙ sym e; path = path },
      )

  connect_uri :
      (debug : Bool) (u : h.Uri) (a : String)
      → h.authority u ≡ some a
      → (u' : h.Uri) × (http1_uri h debug true u ≡ value u') × IsAuthorityOf u u'
  unfolding http1_uri is_https
  connect_uri debug u a e =
      let (u', made, form) = authority_form-IsAuthorityOf debug u a e in
      (u', rw (made, form.scheme) refl, form)

  -- What `check_http1_request` gives on an HTTP/1 connection, by the method and the parts of the URI.
  abbrev pub Sent :
      (debug : Bool) → Method → Option String → Option String → h.Uri → Outcome h.Uri → Type 0
  Sent debug connect s none u o = o ≡ panic
  Sent debug connect s (some a) u o = (u' : h.Uri) × (o ≡ value u') × IsAuthorityOf u u'
  Sent debug (other m) (some s) (some a) u o = (u' : h.Uri) × (o ≡ value u') × IsOriginOf u u'
  Sent true (other m) none a u o = o ≡ panic
  Sent true (other m) (some s) none u o = o ≡ panic
  Sent false (other m) none a u o = o ≡ value u
  Sent false (other m) (some s) none u o = o ≡ value u

  http1_uri-Sent :
      (debug : Bool) (m : Method) (s a : Option String) (u : h.Uri)
      → h.scheme u ≡ s
      → h.authority u ≡ a
      → Sent debug m s a u (http1_uri h debug (is_connect h debug m) u)
  unfolding http1_uri authority_form authority_parts absolute_form assert
  http1_uri-Sent debug connect s none u e k = rw k refl
  http1_uri-Sent debug connect s (some a) u e k = connect_uri debug u a k
  http1_uri-Sent debug (other m) (some s) (some a) u e k =
      rw (e, k) (origin_form-IsOriginOf debug u)
  http1_uri-Sent true (other m) none a u e k = rw e refl
  http1_uri-Sent true (other m) (some s) none u e k = rw (e, k) refl
  http1_uri-Sent false (other m) none a u e k = rw e refl
  http1_uri-Sent false (other m) (some s) none u e k = rw (e, k) refl

  pub Sent-origin :
      (debug : Bool) (m : Method) (os oa : Option String) (k s a : String) (u : h.Uri)
      (r : Outcome h.Uri)
      → m ≡ other k
      → os ≡ some s
      → oa ≡ some a
      → Sent debug m os oa u r
      → (u' : h.Uri) × (r ≡ value u') × IsOriginOf u u'
  Sent-origin debug m os oa k s a u r em es ea x = rw (em, es, ea) at x

  -- What `check_http1_request` gives: the request with the URI that is sent, and nothing else changed.
  abbrev pub SentFor :
      {B : Type 0} (debug : Bool) (protocol : HttpProtocol) (req : Request h B)
      → Outcome (Request h B)
      → Type 0
  SentFor debug http1 req o =
      (r : Outcome h.Uri) × Sent debug req.method (h.scheme req.uri) (h.authority req.uri) req.uri r
      × (o ≡ r >>= (λ u. value (record req { uri = u })))
  SentFor debug http2 req o = o ≡ value req
  SentFor debug http3 req o = o ≡ value req

  -- The HTTP/1 check on a request, for each protocol and every form of URI. On an HTTP/1 connection
  -- CONNECT goes out in authority form and panics without an authority; another request with a
  -- scheme and an authority goes out in origin form; with one of them missing the URI is left as it
  -- is, and the check panics if debug assertions are on. On other connections nothing is changed.
  pub check_http1_request-SentFor :
      {B : Type 0} (debug : Bool) (protocol : HttpProtocol) (req : Request h B)
      → SentFor debug protocol req (check_http1_request h debug protocol req)
  unfolding check_http1_request
  check_http1_request-SentFor debug http1 req =
      (_, http1_uri-Sent debug req.method _ _ req.uri refl refl, refl)
  check_http1_request-SentFor debug http2 req = refl
  check_http1_request-SentFor debug http3 req = refl
