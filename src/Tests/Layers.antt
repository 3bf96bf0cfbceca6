-- ===== src/Tests/Layers.antt =====
-- A service that tells of each call whether it was polled before, behind the layers; and clients,
-- streams and senders.
use hyperdriver.Base.{
  ℕ, ◌+◌, ◌≡◌, refl, Bool, true, false, Option, none, some, Result, ok, ready, value,
}
use hyperdriver.Http.{Request, http_11, other}
use hyperdriver.Http.Sample.{sample_http}
use hyperdriver.Info.{HttpProtocol, http2}
use hyperdriver.Service.Checks.{HttpRequestError}
use hyperdriver.Service.Checks.Http2.{CheckedFor}
use hyperdriver.Server.ConnInfo.{Extended}
use hyperdriver.Server.Sni.{Authorities, TlsConnectionInfo}
use hyperdriver.Layers.{Service, timeout_layer, preprocess_layer, option_service}
use hyperdriver.Layers.Connection.{info_layer, tls_info_layer, make_info_layer, sni_layer}
use hyperdriver.Layers.Contract.{
  KeepsContract, OfTimeout, OfMaybe, OfMakeInfo, OfOptional, OfSni, layers-KeepsContract,
  connection_services-KeepsContract,
}
use hyperdriver.Layers.Transport.{TlsService, auto_tls, always_tls}
use hyperdriver.Layers.Transport.Keeps.{OfBraid, auto_tls-KeepsContract}
use hyperdriver.Layers.Executor.{executor, sent, join_call}
use hyperdriver.Layers.Executor.Sends.{executor-CheckedFor}

-- Its state says whether it was polled, and so does the future of a call.
abbrev flagged : (Req E : Type 0) → Service Req Bool E
flagged Req E = record {
  State = Bool;
  poll_ready = λ c. (ready (ok tt), true);
  call = λ c req. (c, false);
  clone = λ c. false;
}

abbrev WasPolled : Bool → Type 0
WasPolled b = b ≡ true

flagged-KeepsContract : {Req E : Type 0} → KeepsContract (flagged Req E) WasPolled
flagged-KeepsContract c req r = refl

layers-KeepsContract_example :
    KeepsContract (timeout_layer (λ n. n) 30 (λ u. 7) (flagged ℕ ℕ)) (OfTimeout WasPolled)
    × KeepsContract (preprocess_layer ok (flagged ℕ ℕ)) (OfMaybe WasPolled)
    × KeepsContract
        (option_service (λ e. e) (flagged ℕ ℕ) (flagged ℕ ℕ))
        (OfOptional WasPolled WasPolled)
    × KeepsContract (make_info_layer (λ stream. stream) (flagged ℕ ℕ)) (OfMakeInfo WasPolled)
layers-KeepsContract_example =
    layers-KeepsContract (flagged ℕ ℕ) WasPolled flagged-KeepsContract (λ n. n) 30 (λ u. 7) ok
      (λ stream. stream) (λ e. e) (flagged ℕ ℕ) WasPolled flagged-KeepsContract

abbrev pub names : Authorities
names = record { parse = some; host = λ s. s }

abbrev Served : Type 0
Served = Extended (Request sample_http ℕ) ℕ TlsConnectionInfo

connection_services-KeepsContract_example :
    KeepsContract
      (info_layer (
        tls_info_layer {Rx = Option TlsConnectionInfo}
          (λ rx. rx)
          (sni_layer sample_http names (flagged Served ℕ))))
      (OfSni WasPolled)
connection_services-KeepsContract_example =
    connection_services-KeepsContract sample_http names (λ rx. rx) (flagged Served ℕ) WasPolled
      flagged-KeepsContract

abbrev get_a : Request sample_http ℕ
get_a = record {
  method = other "GET";
  uri = record {
    parts = record {
      scheme = some "http";
      authority = some "example.com";
      path_and_query = some "/a";
    };
    host_name = some "example.com";
    port_number = none;
  };
  version = http_11;
  headers = λ name. none;
  body = 0;
}

-- A sender whose future is the body that it was given.
abbrev sending : Service (HttpProtocol × Request sample_http ℕ) ℕ ℕ
sending = record {
  State = ℕ;
  poll_ready = λ c. (ready (ok tt), c);
  call = λ c req. (req.1.body, c + 1);
  clone = λ c. c;
}

executor-CheckedFor_example :
    (r : Result (Request sample_http ℕ) (HttpRequestError ℕ)) × (join_call sample_http true
        (λ p. p)
        sending
        ((executor sample_http true (λ p. p) sending).call 3 (http2, get_a))
      ≡ sent sample_http true (λ p. p) sending sending.call 3 http2 (value r))
    × CheckedFor sample_http ℕ http2 get_a.method get_a r
executor-CheckedFor_example =
    executor-CheckedFor sample_http true (λ p. p) sending 3 http2 get_a refl

abbrev pooled_transport : Service (Request sample_http ℕ) Bool ℕ
pooled_transport = flagged (Request sample_http ℕ) ℕ

-- A transport with TLS whose state is that of the transport inside.
abbrev tls_transport : TlsService Bool (Request sample_http ℕ) Bool ℕ
tls_transport = record {
  service = record {
    State = Bool;
    poll_ready = λ c. (ready (ok tt), true);
    call = λ c req. (c, false);
    clone = λ c. false;
  };
  transport = λ c. c;
  set_transport = λ c inner. inner;
}

auto_tls-KeepsContract_example :
    KeepsContract
      (auto_tls sample_http pooled_transport tls_transport (λ e. e))
      (OfBraid WasPolled WasPolled)
    × KeepsContract
        (always_tls sample_http pooled_transport tls_transport (λ e. e))
        (OfBraid WasPolled WasPolled)
auto_tls-KeepsContract_example =
    auto_tls-KeepsContract sample_http pooled_transport tls_transport (λ e. e) WasPolled WasPolled
      flagged-KeepsContract (λ c req r. refl) (λ c r. (false, refl, refl))
