-- ===== src/Info/Names.antt =====
-- The names of protocols: what parses, and what a parsed protocol prints as.
use hyperdriver.Base.{◌≡◌, refl, ◌≢◌, if-holds, sym, ◌↔◌, eq_iff, ok, String, str_eq}
use hyperdriver.Http.{Version, http_09, http_10, http_11, http_2, http_3}
use hyperdriver.Info.{
  HttpProtocol, http1, http2, http3, version, try_from, Protocol, http, grpc, web_socket, other,
  to_string, from_str, version_text,
}

-- A protocol that a connection can have comes back from its version, except HTTP/3, which
-- `try_from` does not take.
pub try_from-version : (p : HttpProtocol) → (try_from (version p) ≡ ok p) ↔ (p ≢ http3)
unfolding try_from version
try_from-version http1 = (λ _ e. cc, λ _. refl)
try_from-version http2 = (λ _ e. cc, λ _. refl)
try_from-version http3 = (λ e. cc, λ h. absurd (h refl))

-- A protocol that prints as `s`, or one of an HTTP version.
pub data Reads (s : String) : Protocol → Type 0 where
  version_name : (v : Version) → Reads s (http v)
  printed : {p : Protocol} → to_string p ≡ s → Reads s p

-- The protocol that `from_str` gives prints as the text it was read from, unless that is one of the
-- names of HTTP versions and the protocol is that version.
pub from_str-Reads : (s : String) → Reads s (from_str s)
unfolding from_str to_string
from_str-Reads s =
    let version_of = λ (n : String) (v : Version) (p : Protocol) (rest : Reads s p).
      if-holds (Reads s) (str_eq s n) {x = http v} (λ _. version_name v) rest in
    version_of "http/0.9" http_09 _ (
      version_of "http/1.0" http_10 _ (
        version_of "http/1.1" http_11 _ (
          version_of "h2" http_2 _ (
            version_of "h3" http_3 _ (
              if-holds (Reads s) (str_eq s "gRPC") {x = grpc}
                (λ e. printed {p = grpc} (sym ((eq_iff s "gRPC").0 e)))
                (if-holds (Reads s) (str_eq s "WebSocket") {x = web_socket}
                  (λ e. printed {p = web_socket} (sym ((eq_iff s "WebSocket").0 e)))
                  (printed {p = other s} refl)))))))

-- A version's own text is not one of the names that `from_str` knows: `http::Version` prints in
-- upper case, so a printed HTTP protocol parses as some other protocol.
pub from_str-to_string-http : (v : Version) → from_str (to_string (http v)) ≡ other (version_text v)
unfolding from_str to_string
from_str-to_string-http http_09 = refl
from_str-to_string-http http_10 = refl
from_str-to_string-http http_11 = refl
from_str-to_string-http http_2 = refl
from_str-to_string-http http_3 = refl
