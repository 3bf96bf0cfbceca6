-- ===== src/Tests/Connections.antt =====
-- Connections of a server and of a client.
use hyperdriver.Base.{
  if◌then◌else◌, ◌==◌, [], ◌∷◌, none, ℕ, ◌+◌, refl, false, All, Option, none, some, String, Result,
  ok, ready,
}
use hyperdriver.Http.{Request, http_2, other}
use hyperdriver.Http.Sample.{sample_http}
use hyperdriver.Info.{http1}
use hyperdriver.Server.Sni
use hyperdriver.Server.Sni.{Authorities, TlsConnectionInfo, handle}
use hyperdriver.Server.Acceptor.{no_tls, tls, with_tls, Accept}
use hyperdriver.Server.Acceptor.Accepts.{IsSecure, accept_all, with_tls-IsSecure}
use hyperdriver.Client.Handshake.{AlpnHttpConnectionBuilder, default_builder}
use hyperdriver.Client.Handshake.Builds.{AllPredicted, connect_all, connect_all-AllPredicted}

abbrev names : Authorities
names = record { parse = λ s. some s; host = λ s. s }

-- An HTTP/2 request to example.com, over TLS to the server of that name.
abbrev to_example : Request sample_http ℕ
to_example = record {
  method = other "GET";
  uri = record {
    parts = record {
      scheme = some "https";
      authority = some "example.com";
      path_and_query = some "/";
    };
    host_name = some "example.com";
    port_number = none;
  };
  version = http_2;
  headers = λ n. none;
  body = 0;
}

abbrev tls_example : TlsConnectionInfo
tls_example = record { server_name = some "example.com"; validated = false }

abbrev answer_ok : Request sample_http ℕ → Option TlsConnectionInfo → Result ℕ ℕ
answer_ok req info = ok 200

abbrev accept_number : Accept ℕ ℕ ℕ
accept_number n = (ready (ok n), n + 1)

with_tls-IsSecure_example :
    All
      (IsSecure accept_number accept_number (λ n. n) (λ n. n))
      (accept_all accept_number accept_number (λ n. n) (λ n. n) 2 (tls 5))
unfolding with_tls
with_tls-IsSecure_example =
    with_tls-IsSecure accept_number accept_number (λ n. n) (λ n. n) (λ c. c) (no_tls 5) (tls 5) 2
      refl

abbrev alpn : ℕ → Option (Option String)
alpn n = if n == 4 then some (some "h2") else none

-- hyper's builders, by a number that goes into their connections.
abbrev connects_with : ℕ → ℕ → Result ℕ ℕ
connects_with b n = ok (b + n)

abbrev builder : AlpnHttpConnectionBuilder ℕ ℕ
builder = default_builder 10 20

connect_all-AllPredicted_example :
    AllPredicted alpn connects_with connects_with
      (λ b. b)
      (λ b. b)
      builder
      http1
      (4 ∷ 5 ∷ [])
      (connect_all alpn connects_with connects_with (λ b. b) (λ b. b) builder (4 ∷ 5 ∷ []))
unfolding default_builder
connect_all-AllPredicted_example =
    connect_all-AllPredicted alpn connects_with connects_with (λ b. b) (λ b. b) builder (4 ∷ 5 ∷ [])
