-- ===== src/Service/Checks/Http2.antt =====
-- What the HTTP/2 check makes of a request.
use hyperdriver.Base.{
  ◌≡◌, refl, ap, ◌∙◌, Bool, true, false, if◌then◌else◌, ◌||◌, List, [], ◌∷◌, none, String, str_eq,
  Result, ok, err,
}
use hyperdriver.Http.{Http, Request, Method, connect, other, http_2}
use hyperdriver.Info.{HttpProtocol, http1, http2, http3}
use hyperdriver.Service.Checks.{
  connection_headers, HttpRequestError, invalid_method, remove_all, http2_request,
  check_http2_request,
}

abbrev pub listed : List String → String → Bool
listed [] k = false
listed (n ∷ names) k = str_eq n k || listed names k

if-or {ℓ} :
    {A : Type ℓ} (b c : Bool) (x y : A)
    → (if c then x else (if b then x else y)) ≡ (if b || c then x else y)
if-or true true x y = refl
if-or true false x y = refl
if-or false true x y = refl
if-or false false x y = refl

or_comm : (b c : Bool) → (b || c) ≡ (c || b)
or_comm true true = refl
or_comm true false = refl
or_comm false true = refl
or_comm false false = refl

module _ (h : Http) where
  get-remove_all :
      (names : List String) (m : h.HeaderMap) (k : String)
      → h.get (remove_all h names m) k ≡ (if listed names k then none else h.get m k)
  unfolding remove_all
  get-remove_all [] m k = refl
  get-remove_all (n ∷ names) m k =
      get-remove_all names (h.remove n m) k
      ∙ ap (λ x. if listed names k then none else x) (h.get-remove m n k)
      ∙ if-or (str_eq n k) (listed names k) none (h.get m k)

  -- The request as HTTP/2 allows it: the version is HTTP/2, the connection headers and Host are
  -- gone, and all else is as it was.
  pub record Cleaned {B : Type 0} (req req' : Request h B) : Type 0 where
    pub version : req'.version ≡ http_2
    pub headers :
        (k : String)
        → h.get req'.headers k
          ≡ (if listed ("host" ∷ connection_headers) k then none else h.get req.headers k)
    pub method : req'.method ≡ req.method
    pub uri : req'.uri ≡ req.uri
    pub body : req'.body ≡ req.body

  module _ {B : Type 0} (E : Type 0) where
    abbrev pub CheckedFor :
        HttpProtocol → Method → Request h B → Result (Request h B) (HttpRequestError E) → Type 0
    CheckedFor http1 m req r = r ≡ ok req
    CheckedFor http2 connect req r = r ≡ err (invalid_method connect)
    CheckedFor http2 (other m) req r = (req' : Request h B) × (r ≡ ok req') × Cleaned req req'
    CheckedFor http3 m req r = r ≡ ok req

    http2_request-CheckedFor :
        (m : Method) (req : Request h B) → CheckedFor http2 m req (http2_request h m req)
    unfolding http2_request
    http2_request-CheckedFor connect req = refl
    http2_request-CheckedFor (other m) req = (
      _,
      refl,
      record {
        version = refl;
        headers = λ k.
            h.get-remove (remove_all h connection_headers req.headers) "host" k
            ∙ ap (λ x. if str_eq "host" k then none else x)
                (get-remove_all connection_headers req.headers k)
            ∙ if-or (listed connection_headers k) (str_eq "host" k) none (h.get req.headers k)
            ∙ ap (λ b. if b then none else h.get req.headers k)
                (or_comm (listed connection_headers k) (str_eq "host" k));
        method = refl;
        uri = refl;
        body = refl;
      },
    )

    -- The HTTP/2 check on a request, for each protocol: on an HTTP/2 connection CONNECT is refused,
    -- and any other request goes on with the version HTTP/2, without the five connection headers and
    -- Host, and otherwise unchanged; on other connections every request goes on as it is.
    pub check_http2_request-CheckedFor :
        (protocol : HttpProtocol) (req : Request h B)
        → CheckedFor protocol req.method req (check_http2_request h protocol req)
    unfolding check_http2_request
    check_http2_request-CheckedFor http1 req = refl
    check_http2_request-CheckedFor http2 req = http2_request-CheckedFor req.method req
    check_http2_request-CheckedFor http3 req = refl
