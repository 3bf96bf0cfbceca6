-- ===== src/Info.antt =====
-- src/info/mod.rs: the protocols of a connection, their names, and the addresses of streams.
pub mod Names
use hyperdriver.Base.{
  ◌≡◌, Bool, true, false, if◌then◌else◌, Option, none, some, String, str_eq, Result, ok, err,
  and_then, map_ok, ℕ,
}
use hyperdriver.Http.{Version, http_09, http_10, http_11, http_2, http_3}

-- `HttpProtocol`.
pub data HttpProtocol : Type 0 where
  http1 http2 http3 : HttpProtocol

-- `==` on protocols.
abbrev pub same_protocol : HttpProtocol → HttpProtocol → Bool
same_protocol http1 http1 = true
same_protocol http1 http2 = false
same_protocol http1 http3 = false
same_protocol http2 http1 = false
same_protocol http2 http2 = true
same_protocol http2 http3 = false
same_protocol http3 http1 = false
same_protocol http3 http2 = false
same_protocol http3 http3 = true

-- `fmt::Debug for HttpProtocol`.
debug_text : HttpProtocol → String
debug_text http1 = "HTTP/1"
debug_text http2 = "HTTP/2"
debug_text http3 = "HTTP/3"

-- `HttpProtocol::multiplex`.
unfoldable pub multiplex : HttpProtocol → Bool
multiplex http1 = false
multiplex http2 = true
multiplex http3 = false

-- `HttpProtocol::version`.
pub version : HttpProtocol → Version
version http1 = http_11
version http2 = http_2
version http3 = http_3

-- `UnsupportedProtocol`.
pub record UnsupportedProtocol : Type 0 where
  pub unsupported : Version

-- `TryFrom<Version> for HttpProtocol`.
unfoldable pub try_from : Version → Result HttpProtocol UnsupportedProtocol
try_from http_11 = ok http1
try_from http_10 = ok http1
try_from http_2 = ok http2
try_from http_09 = err (record { unsupported = http_09 })
try_from http_3 = err (record { unsupported = http_3 })

-- `Protocol`.
pub data Protocol : Type 0 where
  http : Version → Protocol
  grpc web_socket : Protocol
  other : String → Protocol

-- The debug format of `http::Version`.
abbrev pub version_text : Version → String
version_text http_09 = "HTTP/0.9"
version_text http_10 = "HTTP/1.0"
version_text http_11 = "HTTP/1.1"
version_text http_2 = "HTTP/2.0"
version_text http_3 = "HTTP/3.0"

-- `fmt::Display for Protocol`.
pub to_string : Protocol → String
to_string (http v) = version_text v
to_string grpc = "gRPC"
to_string web_socket = "WebSocket"
to_string (other s) = s

-- `FromStr for Protocol`.
unfoldable pub from_str : String → Protocol
from_str s =
    if str_eq s "http/0.9"
    then http http_09
    else if str_eq s "http/1.0"
    then http http_10
    else if str_eq s "http/1.1"
    then http http_11
    else if str_eq s "h2"
    then http http_2
    else if str_eq s "h3"
    then http http_3
    else if str_eq s "gRPC"
    then grpc
    else if str_eq s "WebSocket"
    then web_socket
    else other s

-- `BraidAddr`, over the address types of std and of the stream library.
pub data BraidAddr (SocketAddr DuplexAddr UnixAddr : Type 0) : Type 0 where
  tcp_addr : SocketAddr → BraidAddr SocketAddr DuplexAddr UnixAddr
  duplex_addr : DuplexAddr → BraidAddr SocketAddr DuplexAddr UnixAddr
  unix_addr : UnixAddr → BraidAddr SocketAddr DuplexAddr UnixAddr

module _ {SocketAddr DuplexAddr UnixAddr : Type 0} where
  -- `fmt::Display for BraidAddr`.
  pub addr_text :
      (SocketAddr → String)
      → (UnixAddr → String)
      → BraidAddr SocketAddr DuplexAddr UnixAddr
      → String
  addr_text socket_text unix_text (tcp_addr a) = socket_text a
  addr_text socket_text unix_text (duplex_addr a) = "<duplex>"
  addr_text socket_text unix_text (unix_addr a) = unix_text a

  -- `BraidAddr::tcp`.
  pub tcp : BraidAddr SocketAddr DuplexAddr UnixAddr → Option SocketAddr
  tcp (tcp_addr a) = some a
  tcp (duplex_addr a) = none
  tcp (unix_addr a) = none

  -- `BraidAddr::path`; `unix_path` is `addr.path()` with `Utf8Path::from_path` behind it.
  pub path :
      {Utf8Path : Type 0}
      → (UnixAddr → Option Utf8Path)
      → BraidAddr SocketAddr DuplexAddr UnixAddr
      → Option Utf8Path
  path unix_path (tcp_addr a) = none
  path unix_path (duplex_addr a) = none
  path unix_path (unix_addr a) = unix_path a

  -- `BraidAddr::canonical`.
  pub canonical :
      BraidAddr SocketAddr DuplexAddr UnixAddr → BraidAddr SocketAddr DuplexAddr UnixAddr
  canonical (tcp_addr a) = tcp_addr a
  canonical (duplex_addr a) = duplex_addr a
  canonical (unix_addr a) = unix_addr a

  -- `Address::inner`, by what each kind of address is as a `dyn Address`.
  pub inner :
      {Address : Type 0}
      → (SocketAddr → Address)
      → (DuplexAddr → Address)
      → (UnixAddr → Address)
      → BraidAddr SocketAddr DuplexAddr UnixAddr
      → Option Address
  inner socket duplex unix (tcp_addr a) = some (socket a)
  inner socket duplex unix (duplex_addr a) = some (duplex a)
  inner socket duplex unix (unix_addr a) = some (unix a)

  -- `From<SocketAddr>`, `From<UnixAddr>` and `From<DuplexAddr>` for `BraidAddr`.
  unfoldable pub from_socket : SocketAddr → BraidAddr SocketAddr DuplexAddr UnixAddr
  from_socket a = tcp_addr a

  unfoldable pub from_unix : UnixAddr → BraidAddr SocketAddr DuplexAddr UnixAddr
  from_unix a = unix_addr a

  unfoldable pub from_duplex : DuplexAddr → BraidAddr SocketAddr DuplexAddr UnixAddr
  from_duplex a = duplex_addr a

  -- `TryFrom<tokio::net::unix::SocketAddr>`, by the conversion of that address into a `UnixAddr`.
  pub try_from_unix :
      {A E : Type 0}
      → (A → Result UnixAddr E)
      → A
      → Result (BraidAddr SocketAddr DuplexAddr UnixAddr) E
  try_from_unix convert a = map_ok unix_addr (convert a)

  -- `From<Utf8PathBuf>`; `of_path` is `UnixAddr::from_pathbuf` of the path.
  pub from_path :
      {PathBuf : Type 0} → (PathBuf → UnixAddr) → PathBuf → BraidAddr SocketAddr DuplexAddr UnixAddr
  from_path of_path p = unix_addr (of_path p)

-- std's `IpAddr`, over its two kinds, and `SocketAddr` with `SocketAddr::new`.
pub data IpAddr (V4 V6 : Type 0) : Type 0 where
  v4 : V4 → IpAddr V4 V6
  v6 : V6 → IpAddr V4 V6

pub record SocketAddr (Ip : Type 0) : Type 0 where
  pub ip : Ip
  pub port : ℕ

module _ {V4 V6 DuplexAddr UnixAddr : Type 0} where
  -- `From<(IpAddr, u16)>`, `From<(Ipv4Addr, u16)>` and `From<(Ipv6Addr, u16)>` for `BraidAddr`.
  pub from_ip : IpAddr V4 V6 × ℕ → BraidAddr (SocketAddr (IpAddr V4 V6)) DuplexAddr UnixAddr
  from_ip (ip, port) = tcp_addr (record { ip = ip; port = port })

  pub from_v4 : V4 × ℕ → BraidAddr (SocketAddr (IpAddr V4 V6)) DuplexAddr UnixAddr
  from_v4 (ip, port) = tcp_addr (record { ip = v4 ip; port = port })

  pub from_v6 : V6 × ℕ → BraidAddr (SocketAddr (IpAddr V4 V6)) DuplexAddr UnixAddr
  from_v6 (ip, port) = tcp_addr (record { ip = v6 ip; port = port })
