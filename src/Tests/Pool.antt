-- ===== src/Tests/Pool.antt =====
-- A pool over small types: streams are numbers, and hyper's senders count requests.
use hyperdriver.Base.{true, ℕ, ◌+◌, ◌≡◌, refl, false, if◌then◌else◌, none, some, str_eq, ok}
use hyperdriver.Http.{Request, http_11}
use hyperdriver.Http.Sample.{sample_http}
use hyperdriver.Stream.{OptTlsStream}
use hyperdriver.Client.Key.{SameKey-of_path, folded, build_key}
use hyperdriver.Client.Stream.{Stream, new, from_inner}
use hyperdriver.Client.Tls
use hyperdriver.Client.Tls.{
  TlsTransport, AutoTlsTransport, get_host, get_tls_domain, Connect, from_plain, from_tls,
  into_inner, tls,
}
use hyperdriver.Client.Tls.Future.{start, drive}
use hyperdriver.Client.Tls.Pooled.{IsExact, is_tls}
use hyperdriver.Client.Tls.Streams.{has_tls}
use hyperdriver.Client.Handshake
use hyperdriver.Client.Handshake.{
  HttpConnection, h1, h2, version, AlpnHttpConnectionBuilder, default_builder, handshake,
  handshake_h1, handshake_h2, has_h2, alpn_is_h2, clone_builder,
}
use hyperdriver.Client.Pool.{Parts, Pooled, Connected, Established, made}
use hyperdriver.Client.Pool.Alike.{asked, Complete, Ordinary, Pooled-has_tls, Pooled-call}
use hyperdriver.Client.Pool.Sends.{Delivered, deliver, deliver-Delivered}
use hyperdriver.Client.Pool.Mixes.{other_case, Any, plain_for_https, other_domain}
use hyperdriver.Tests.Accepting.{plain_poll, tls_poll, connect, connect_tls, secure_stream}
use hyperdriver.Client.Tls.Domain.{Alike}
use hyperdriver.Tests.Requests.{
  request_to, uri_at, port_444, with_config, secure_get, secure_post, schemeless,
}

abbrev counts : ℕ → Request sample_http ℕ → ℕ × ℕ
counts s req = (req.body, s + 1)

abbrev sample_parts : Parts sample_http ℕ ℕ ℕ
sample_parts = record {
  PlainFuture = ℕ;
  TlsFuture = ℕ;
  Io = ℕ;
  TlsStream = ℕ;
  ConnectError = ℕ;
  Error = ℕ;
  connect = connect;
  connect_tls = connect_tls;
  poll_plain = plain_poll;
  poll_tls = tls_poll;
  connection_error = λ e. e;
  tls_info = λ s. if has_tls s then some (some "h2") else none;
  Builder1 = ℕ;
  Builder2 = ℕ;
  Send1 = ℕ;
  Send2 = ℕ;
  HyperError = ℕ;
  connect1 = λ b s. ok b;
  connect2 = λ b s. ok b;
  clone1 = λ b. b;
  clone2 = λ b. b;
  clone_sender = λ s. s;
  Response = ℕ;
  send1 = counts;
  send2 = counts;
  Ready = ℕ;
  ready1 = λ s. (0, s);
  ready2 = λ s. (0, s);
}

abbrev builder : AlpnHttpConnectionBuilder ℕ ℕ
builder = default_builder 10 20

https-IsExact : IsExact "https"
unfolding folded
https-IsExact = record { https = λ e. refl; wss = λ e. cc }

get-Complete : Complete sample_http sample_parts with_config builder secure_get
unfolding get_host
get-Complete = record { scheme_name = "https"; scheme = refl; exact = https-IsExact; host = refl }

post-Complete : Complete sample_http sample_parts with_config builder secure_post
unfolding get_host
post-Complete = record { scheme_name = "https"; scheme = refl; exact = https-IsExact; host = refl }

abbrev pooled_connection : HttpConnection ℕ ℕ
pooled_connection = h2 20

get-Ordinary :
    Ordinary sample_http sample_parts with_config builder (λ a. some "example.com") secure_get
get-Ordinary = record {
  scheme_name = "https";
  scheme = refl;
  exact = https-IsExact;
  no_header = refl;
  host = refl;
}

post-Ordinary :
    Ordinary sample_http sample_parts with_config builder (λ a. some "example.com") secure_post
post-Ordinary = record {
  scheme_name = "https";
  scheme = refl;
  exact = https-IsExact;
  no_header = refl;
  host = refl;
}

-- The secure stream, connected and made a connection.
get-Connected : Connected sample_http sample_parts with_config builder 2 secure_get secure_stream
unfolding get_host get_tls_domain Tls.call start drive from_inner
get-Connected = refl

get-Established :
    Established sample_http sample_parts with_config builder secure_stream pooled_connection
unfolding alpn_is_h2 has_h2 handshake_h1 handshake_h2 handshake clone_builder default_builder
    Handshake.call from_inner
get-Established = refl

-- The connection that a request made, in the pool.
pooled_get :
    (P : Request sample_http ℕ → Type 0)
    → P secure_get
    → Pooled sample_http sample_parts with_config builder P
        (build_key sample_http secure_post)
        (Tls.call sample_http with_config secure_get)
        secure_stream
        pooled_connection
unfolding build_key get_host get_tls_domain Tls.call
pooled_get P holds =
    made secure_get 2 holds (SameKey-of_path refl) refl get-Connected get-Established

Pooled-has_tls_example :
    (has_tls secure_stream ≡ is_tls (Tls.call sample_http with_config secure_post))
    × (version pooled_connection ≡ asked sample_http sample_parts with_config builder secure_stream)
Pooled-has_tls_example =
    Pooled-has_tls sample_http sample_parts with_config builder secure_post post-Complete
      (pooled_get (Complete sample_http sample_parts with_config builder) get-Complete)

Pooled-call_example :
    Alike
      (Tls.call sample_http with_config secure_get)
      (Tls.call sample_http with_config secure_post)
    × (has_tls secure_stream ≡ is_tls (Tls.call sample_http with_config secure_get))
    × (version pooled_connection ≡ asked sample_http sample_parts with_config builder secure_stream)
Pooled-call_example =
    Pooled-call sample_http sample_parts with_config builder (λ a. some "example.com") secure_post
      (λ a b e. refl) post-Ordinary
      (pooled_get (Ordinary sample_http sample_parts with_config builder (λ a. some "example.com"))
        get-Ordinary)

abbrev plain_stream : Stream ℕ ℕ
plain_stream = from_inner (OptTlsStream.no_tls 80)

abbrev plain_connection : HttpConnection ℕ ℕ
plain_connection = h1 10

schemeless-Connected :
    Connected sample_http sample_parts with_config builder 1 schemeless plain_stream
unfolding get_host get_tls_domain Tls.call start drive from_inner new
schemeless-Connected = refl

schemeless-Established :
    Established sample_http sample_parts with_config builder plain_stream plain_connection
unfolding alpn_is_h2 has_h2 handshake_h1 handshake_h2 handshake clone_builder default_builder
    Handshake.call from_inner new
schemeless-Established = refl

plain_for_https_example :
    Pooled sample_http sample_parts with_config builder
      (Any sample_http sample_parts)
      (build_key sample_http secure_get)
      (from_plain (into_inner with_config))
      plain_stream
      plain_connection
    × (has_tls plain_stream ≡ false)
plain_for_https_example =
    plain_for_https sample_http sample_parts with_config builder schemeless secure_get 1
      plain_stream plain_connection refl refl refl refl schemeless-Connected schemeless-Established

abbrev other_host : Request sample_http ℕ
other_host = record secure_get {
  headers = λ name. if str_eq name "host" then some "other.com" else none;
}

other-Connected : Connected sample_http sample_parts with_config builder 2 other_host secure_stream
unfolding get_host get_tls_domain Tls.call start drive from_inner
other-Connected = refl

other_domain_example :
    Pooled sample_http sample_parts with_config builder
      (Any sample_http sample_parts)
      (build_key sample_http secure_get)
      (from_tls (record { transport = 1; config = 2 }) "other.com")
      secure_stream
      pooled_connection
    × (Tls.call sample_http with_config secure_get
        ≡ from_tls (record { transport = 1; config = 2 }) "example.com")
other_domain_example =
    other_domain sample_http sample_parts (record { transport = 1; config = 2 }) builder other_host
      secure_get "other.com" "other.com" "example.com" 2 secure_stream pooled_connection refl refl
      refl refl refl refl refl other-Connected get-Established

abbrev transport : TlsTransport ℕ ℕ
transport = record { transport = 1; config = 2 }

deliver-Delivered_example :
    Alike (Tls.call sample_http with_config secure_get) (from_tls transport "example.com")
    × (has_tls secure_stream ≡ true)
    × Delivered sample_http true ℕ sample_parts transport builder "example.com" secure_stream
        secure_post pooled_connection
        (deliver sample_http true ℕ sample_parts transport builder pooled_connection secure_post)
deliver-Delivered_example =
    deliver-Delivered sample_http true ℕ sample_parts transport builder secure_post "POST"
      "example.com:444" "example.com" secure_stream (λ a. some "example.com") (λ a b e. refl) refl
      refl refl refl post-Ordinary
      (pooled_get (Ordinary sample_http sample_parts with_config builder (λ a. some "example.com"))
        get-Ordinary)

-- Requests of one scheme in two spellings.
abbrev upper_wss : Request sample_http ℕ
upper_wss = request_to http_11 (uri_at (some "WSS") "/a" (some port_444))

abbrev lower_wss : Request sample_http ℕ
lower_wss = request_to http_11 (uri_at (some "wss") "/a" (some port_444))

upper-Connected : Connected sample_http sample_parts with_config builder 1 upper_wss plain_stream
unfolding get_host get_tls_domain Tls.call start drive from_inner new
upper-Connected = refl

other_case_example :
    Pooled sample_http sample_parts with_config builder
      (Any sample_http sample_parts)
      (build_key sample_http lower_wss)
      (from_plain 1)
      plain_stream
      plain_connection
    × (has_tls plain_stream ≡ false)
    × (Tls.call sample_http with_config lower_wss ≡ from_tls transport "example.com")
unfolding get_host
other_case_example =
    other_case sample_http sample_parts transport builder upper_wss lower_wss "example.com" 1
      plain_stream plain_connection refl refl refl refl upper-Connected schemeless-Established
