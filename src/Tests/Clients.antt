-- ===== src/Tests/Clients.antt =====
-- A client of its default options, and one with a User-Agent of its own.
use hyperdriver.Base.{
  ℕ, ◌≡◌, refl, true, if◌then◌else◌, ◌≢◌, arith, eq_iff, [], Option, none, some, String, str_eq,
}
use hyperdriver.Http.{Request, http_11, other}
use hyperdriver.Http.Sample.{sample_http}
use hyperdriver.Info.{http2}
use hyperdriver.Service.Host.{call_connection}
use hyperdriver.Service.Checks.{check_http1_request, check_http2_request}
use hyperdriver.Service.Executor.{execute}
use hyperdriver.Service.Executor.Keeps.{execute-get}
use hyperdriver.Client.Tls
use hyperdriver.Client.Tls.{into_parts, with_optional_tls, get_tls_domain}
use hyperdriver.Client.Builder.{Builder, ClientService}

abbrev pub sample_request : Request sample_http ℕ
sample_request = record {
  method = other "GET";
  uri = record {
    parts = record {
      scheme = some "https";
      authority = some "example.com";
      path_and_query = some "/";
    };
    host_name = some "example.com";
    port_number = none;
  };
  version = http_11;
  headers = λ n. if str_eq n "accept" then some "*/*" else none;
  body = 0;
}

abbrev options : Builder ℕ ℕ ℕ ℕ ℕ ℕ
options = record {
  transport = 1;
  protocol = 2;
  layers = [];
  user_agent = some "me/1";
  redirect = some 10;
  timeout = some 30;
  tls = some 4;
  pool = some 5;
}

abbrev plain_transport : Tls.AutoTlsTransport ℕ ℕ
plain_transport = Tls.plain 1

abbrev pub service : ClientService ℕ ℕ ℕ ℕ ℕ ℕ
service = record {
  layers = [];
  timeout = none;
  redirect = none;
  user_agent = "me/1";
  transport = plain_transport;
  protocol = 2;
  pool = none;
}

-- Over HTTP/2.
host-ne-accept : ◌≢◌ {A = String} "host" "accept"
host-ne-accept = ground (arith, eq_iff "host" "accept")

execute-get_example : ◌≡◌ {A = Option String} (some "*/*") (some "*/*")
unfolding execute call_connection check_http1_request check_http2_request
execute-get_example =
    execute-get sample_http true ℕ "accept" http2 sample_request _ host-ne-accept refl refl
