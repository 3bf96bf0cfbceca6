-- ===== src/Client/Dns.antt =====
-- src/client/conn/dns.rs: the host and port of a URI, and the futures of the resolver.
pub mod Resolves
pub mod First
use Prim.Native.String
use Prim.Native.Char.{Char, code}
use hyperdriver.Base.{
  ℕ, ◌==◌, Bool, if◌then◌else◌, ◌&&◌, List, [], ◌∷◌, Option, none, some, String, str_eq, Result, ok,
  err, Poll, ready, pending, Outcome, value, panic,
}
use hyperdriver.Http.{Http, Port}
use hyperdriver.Io.{ErrorKind, IoError, invalid_data, addr_not_available, interrupted, other}

-- `trim_start_matches(c)` and `trim_end_matches(c)`, on the character with the given code.
pub trim_start : ℕ → String → String
trim_start n String.[] = String.[]
trim_start n (String.◌∷◌ c s) =
    let rest = trim_start n s in if code c == n then rest else String.◌∷◌ c s

trim_last : ℕ → Char → String → String
trim_last n c String.[] = if code c == n then String.[] else String.◌∷◌ c String.[]
trim_last n c (String.◌∷◌ d s) = String.◌∷◌ c (String.◌∷◌ d s)

pub trim_end : ℕ → String → String
unfolding trim_last
trim_end n String.[] = String.[]
trim_end n (String.◌∷◌ c s) = trim_last n c (trim_end n s)

abbrev pub missing_port : IoError
missing_port = record {
  kind = invalid_data;
  message = "missing port in URI for non-http(s) scheme";
}

module _ (h : Http) where
  -- The match on the port and the scheme.
  port_of : Option Port → Option String → Result ℕ IoError
  port_of (some p) scheme = ok p.as_u16
  port_of none none = err missing_port
  port_of none (some s) =
      if str_eq s "http" then ok 80 else if str_eq s "https" then ok 443 else err missing_port

  with_host : Option String → Result ℕ IoError → Result (String × ℕ) IoError
  unfolding trim_start trim_end
  with_host none port = err (record { kind = invalid_data; message = "missing host in URI" })
  with_host (some host) (ok port) = ok (trim_end b']' (trim_start b'[' host), port)
  with_host (some host) (err e) = err e

  -- `get_host_and_port`.
  pub get_host_and_port : h.Uri → Result (String × ℕ) IoError
  unfolding with_host port_of
  get_host_and_port uri = with_host (h.host uri) (port_of (h.port uri) (h.scheme uri))

-- tokio's `JoinError`, as `is_cancelled` tells it apart, and the error made of it.
pub record JoinError : Type 0 where
  pub is_cancelled : Bool
  pub text : String

module _ {Addr Handle : Type 0}
    (poll_handle : Handle → Poll (Result (Result Addr IoError) JoinError) × Handle) where
  joined : Result (Result Addr IoError) JoinError → Result Addr IoError
  joined (ok (ok addrs)) = ok addrs
  joined (ok (err e)) = err e
  joined (err e) =
      if e.is_cancelled
      then err (record { kind = interrupted; message = e.text })
      else err (record { kind = other; message = e.text })

  on_handle :
      Poll (Result (Result Addr IoError) JoinError) × Handle → Poll (Result Addr IoError) × Handle
  unfolding joined
  on_handle (pending, handle) = (pending, handle)
  on_handle (ready r, handle) = (ready (joined r), handle)

  -- `JoinHandleFuture::poll`.
  pub poll_join : Handle → Poll (Result Addr IoError) × Handle
  unfolding on_handle
  poll_join handle = on_handle (poll_handle handle)

-- `GaiFutureState`.
pub data GaiFuture (Handle : Type 0) : Type 0 where
  join_handle : Handle → GaiFuture Handle
  error : Option IoError → GaiFuture Handle

module _ {Addrs Handle : Type 0}
    (poll_join_handle : Handle → Poll (Result Addrs IoError) × Handle) where
  -- `GaiFuture::poll`.
  pub poll : GaiFuture Handle → Outcome (Poll (Result Addrs IoError)) × GaiFuture Handle
  poll (join_handle handle) =
      let (r, handle') = poll_join_handle handle in (value r, join_handle handle')
  poll (error none) = (panic, error none)
  poll (error (some e)) = (value (ready (err e)), error none)

module _ (h : Http) {Handle : Type 0} (spawn : String → ℕ → Handle) where
  on_target : Result (String × ℕ) IoError → GaiFuture Handle
  on_target (ok (host, port)) = join_handle (spawn host port)
  on_target (err e) = error (some e)

  -- `GaiResolver::call`; `spawn` is `spawn_blocking` of the lookup.
  pub call : h.Uri → GaiFuture Handle
  unfolding on_target
  call uri = on_target (get_host_and_port h uri)

-- `FirstAddrFuture::poll` on the result of the inner poll; `ip` is `SocketAddr::ip`.
first : {Addr Ip : Type 0} → (Addr → Ip) → List Addr → Result Ip IoError
first ip [] = err (record { kind = addr_not_available; message = "no address found" })
first ip (a ∷ addrs) = ok (ip a)

pub poll_first :
    {Addr Ip F : Type 0}
    → (Addr → Ip)
    → Poll (Result (List Addr) IoError) × F
    → Poll (Result Ip IoError) × F
unfolding first
poll_first ip (ready (ok addrs), f) = (ready (first ip addrs), f)
poll_first ip (ready (err e), f) = (ready (err e), f)
poll_first ip (pending, f) = (pending, f)
