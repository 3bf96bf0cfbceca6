-- ===== src/Tests/Requests.antt =====
-- Requests to example.com, and what the client's middleware makes of them.
use hyperdriver.Base.{
  [], ◌∷◌, zero, suc, Poll, ready, pending, ℕ, ◌≡◌, refl, true, false, Option, none, some, String,
  Result, ok, value, inl,
}
use hyperdriver.Http.{Request, Port, Version, http_11, http_2, other}
use hyperdriver.Http.Sample.{SampleUri, sample_http}
use hyperdriver.Info.{http1, http2}
use hyperdriver.Service.Checks.{HttpRequestError, check_http1_request}
use hyperdriver.Service.Checks.Http2.{CheckedFor}
use hyperdriver.Service.Checks.Forms.{SentFor, check_http1_request-SentFor}
use hyperdriver.Service.Executor.{execute}
use hyperdriver.Service.Executor.Wire.{execute-CheckedFor}
use hyperdriver.Client.Tls.{AutoTlsTransport, tls}
use hyperdriver.Client.Tls.{call, from_tls}
use hyperdriver.Client.Builder
use hyperdriver.Client.Builder.{ClientService, build_service, send}
use hyperdriver.Client.Start.{get_request}
use hyperdriver.Client.Start.Gets.{get_request-Starts}
use hyperdriver.Service.Host.{host_text, get_non_default_port}
use hyperdriver.Service.Checks.Forms.{IsOriginOf}
use hyperdriver.Client.Dns
use hyperdriver.Client.Dns.Resolves.{Without, port_in}
use hyperdriver.Client.Dns.First
use hyperdriver.Client.Dns.First.{Lookup, Ends, drive-Ends}

abbrev no_headers : String → Option String
no_headers name = none

abbrev pub uri_at : Option String → String → Option Port → SampleUri
uri_at scheme path port = record {
  parts = record {
    scheme = scheme;
    authority = some "example.com:444";
    path_and_query = some path;
  };
  host_name = some "example.com";
  port_number = port;
}

abbrev pub port_444 : Port
port_444 = record { as_str = "444"; as_u16 = 444 }

abbrev pub request_to : Version → SampleUri → Request sample_http ℕ
request_to version uri = record {
  method = other "GET";
  uri = uri;
  version = version;
  headers = no_headers;
  body = 0;
}

abbrev secure_uri : SampleUri
secure_uri = uri_at (some "https") "/a" (some port_444)

abbrev pub secure_get : Request sample_http ℕ
secure_get = request_to http_11 secure_uri

check_http1_request-SentFor_example :
    SentFor sample_http true http1 secure_get
      (check_http1_request sample_http true http1 secure_get)
check_http1_request-SentFor_example = check_http1_request-SentFor sample_http true http1 secure_get

execute-CheckedFor_example :
    (r : Result (Request sample_http ℕ) (HttpRequestError ℕ)) × (execute sample_http false http2
        secure_get
      ≡ value r)
    × CheckedFor sample_http ℕ http2 (other "GET") secure_get r
execute-CheckedFor_example = execute-CheckedFor sample_http false ℕ secure_get

abbrev pub with_config : AutoTlsTransport ℕ ℕ
with_config = tls (record { transport = 1; config = 2 })

abbrev pub secure_post : Request sample_http ℕ
secure_post = record secure_get { method = other "POST"; body = 7 }

abbrev pub schemeless : Request sample_http ℕ
schemeless = request_to http_2 (uri_at none "/" (some port_444))

abbrev spawned : String → ℕ → String × ℕ
spawned host port = (host, port)

-- A lookup that ends after two polls, with two addresses.
abbrev thread : ℕ → Poll (Lookup ℕ) × ℕ
thread zero = (ready (ok (ok (7 ∷ 8 ∷ []))), 0)
thread (suc n) = (pending, n)

abbrev in_thread : String → ℕ → ℕ
in_thread host port = 2

no_bracket : Without b'[' "example.com" × Without b']' "example.com"
no_bracket = (
  (refl, (refl, (refl, (refl, (refl, (refl, (refl, (refl, (refl, (refl, (refl, tt))))))))))),
  (refl, (refl, (refl, (refl, (refl, (refl, (refl, (refl, (refl, (refl, (refl, tt))))))))))),
)

drive-Ends_example :
    Ends
      (λ a. a)
      thread
      sample_http
      in_thread
      3
      "example.com"
      (some "example.com")
      (some 444)
      (First.drive (λ (a : ℕ). a) thread 3 (Dns.call sample_http in_thread secure_uri))
unfolding port_in
drive-Ends_example =
    drive-Ends (λ a. a) thread sample_http in_thread 3 secure_uri "example.com" no_bracket.0
      no_bracket.1 (inl refl)

abbrev get_secure : Request sample_http ℕ
get_secure = get_request sample_http no_headers 0 secure_uri

get_request-Starts_example :
    (s : ClientService ℕ ℕ ℕ ℕ ℕ ℕ) × (build_service sample_http "hyperdriver/0"
        (Builder.default 1 2 3 4 5)
      ≡ value s)
    × (s.timeout ≡ some 30)
    × (s.redirect ≡ some 3)
    × (s.pool ≡ some 5)
    × (call sample_http s.transport get_secure
        ≡ from_tls (record { transport = 1; config = 4 }) "example.com")
    × (req' : Request sample_http ℕ) × (send sample_http "hyperdriver/0" {E = ℕ} true s http1
          get_secure
        ≡ value (ok req'))
    × IsOriginOf sample_http secure_uri req'.uri
    × (sample_http.get req'.headers "host"
        ≡ some (host_text sample_http "example.com" (get_non_default_port sample_http secure_uri)))
    × (sample_http.get req'.headers "user-agent" ≡ some "hyperdriver/0")
get_request-Starts_example =
    get_request-Starts sample_http "hyperdriver/0" no_headers 0 (λ k. refl) ℕ true 1 2 3 4 5
      secure_uri "example.com:444" "example.com" refl refl refl
