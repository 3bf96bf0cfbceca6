-- ===== src/Server/Builder.antt =====
-- src/server/builder.rs: how a server gets its acceptor, its protocol and the make-services that collect
-- information. chateau's `Server`, which is built so, is an interface.
pub mod Parts
use hyperdriver.Base.{◌≡◌, Result, map_ok}
use hyperdriver.Server.Acceptor
use hyperdriver.Server.Acceptor.{Acceptor, AcceptorCore, acceptor_of, core_of_tcp}

-- chateau's `Server` by its parts, with the methods that the source calls and what they are
-- documented to do: each sets one part and leaves the others.
pub record ServerBuilder (Server : Type 0 → Type 0 → Type 0 → Type 0) : Type 1 where
  pub acceptor : {A P S : Type 0} → Server A P S → A
  pub protocol : {A P S : Type 0} → Server A P S → P
  pub make_service : {A P S : Type 0} → Server A P S → S
  pub with_acceptor : {N P S A : Type 0} → Server N P S → A → Server A P S
  pub with_protocol : {A N S P : Type 0} → Server A N S → P → Server A P S
  pub map_service : {A P S S' : Type 0} → Server A P S → (S → S') → Server A P S'
  pub set_acceptor :
      {N P S A : Type 0} (s : Server N P S) (a : A)
      → (acceptor (with_acceptor s a) ≡ a)
        × (protocol (with_acceptor s a) ≡ protocol s)
        × (make_service (with_acceptor s a) ≡ make_service s)
  pub set_protocol :
      {A N S P : Type 0} (s : Server A N S) (p : P)
      → (acceptor (with_protocol s p) ≡ acceptor s)
        × (protocol (with_protocol s p) ≡ p)
        × (make_service (with_protocol s p) ≡ make_service s)
  pub mapped :
      {A P S S' : Type 0} (s : Server A P S) (f : S → S')
      → (acceptor (map_service s f) ≡ acceptor s)
        × (protocol (map_service s f) ≡ protocol s)
        × (make_service (map_service s f) ≡ f (make_service s))

-- `MakeServiceConnectionInfoService` and `MakeServiceTlsConnectionInfoService`.
pub record MakeServiceConnectionInfoService (C : Type 0) : Type 0 where
  pub inner : C

pub record MakeServiceTlsConnectionInfoService (C : Type 0) : Type 0 where
  pub inner : C

-- `auto::Builder`, over hyper's builders.
pub record AutoBuilder (Builder1 Builder2 : Type 0) : Type 0 where
  pub http1 : Builder1
  pub http2 : Builder2

-- `Http1Builder` and `Http2Builder` of server/conn/mod.rs.
pub record Http1Builder (Builder1 : Type 0) : Type 0 where
  pub builder : Builder1

pub record Http2Builder (Builder2 : Type 0) : Type 0 where
  pub builder : Builder2

-- `auto::Builder::new` and its `Default`; `new1` and `new2` are hyper's builders when they are new, the
-- second with the executor of tokio.
unfoldable pub new_auto :
    {Builder1 Builder2 : Type 0} → Builder1 → Builder2 → AutoBuilder Builder1 Builder2
new_auto new1 new2 = record { http1 = new1; http2 = new2 }

unfoldable pub from_http1 : {Builder1 : Type 0} → Builder1 → Http1Builder Builder1
from_http1 builder = record { builder = builder }

unfoldable pub from_http2 : {Builder2 : Type 0} → Builder2 → Http2Builder Builder2
from_http2 builder = record { builder = builder }

abbrev pub Accepting : (Tcp Duplex Unix Tls : Type 0) → Type 0
Accepting Tcp Duplex Unix Tls = Acceptor (AcceptorCore Tcp Duplex Unix) Tls

module _ (Server : Type 0 → Type 0 → Type 0 → Type 0) (b : ServerBuilder Server)
    (Tcp Duplex Unix Tls : Type 0) {P S N : Type 0} where
  -- `with_incoming`; `into` is the conversion of the listener into the core of an acceptor.
  unfoldable pub with_incoming :
      {I : Type 0}
      → (I → AcceptorCore Tcp Duplex Unix)
      → Server N P S
      → I
      → Server (Accepting Tcp Duplex Unix Tls) P S
  with_incoming into s incoming = b.with_acceptor s (acceptor_of into incoming)

  -- `with_listener`.
  unfoldable pub with_listener : Server N P S → Tcp → Server (Accepting Tcp Duplex Unix Tls) P S
  with_listener s listener = b.with_acceptor s (acceptor_of core_of_tcp listener)

  -- `with_bind`, when `TcpListener::bind` is ready.
  unfoldable pub with_bind :
      {Addr E : Type 0}
      → (Addr → Result Tcp E)
      → Server N P S
      → Addr
      → Result (Server (Accepting Tcp Duplex Unix Tls) P S) E
  with_bind bind_tcp s addr = map_ok (λ a. b.with_acceptor s a) (Acceptor.bind bind_tcp addr)

module _ (Server : Type 0 → Type 0 → Type 0 → Type 0) (b : ServerBuilder Server)
    {A N S : Type 0} where
  -- `with_auto_http`, `with_http1` and `with_http2`.
  unfoldable pub with_auto_http :
      {Builder1 Builder2 : Type 0}
      → Builder1
      → Builder2
      → Server A N S
      → Server A (AutoBuilder Builder1 Builder2) S
  unfolding new_auto
  with_auto_http new1 new2 s = b.with_protocol s (new_auto new1 new2)

  unfoldable pub with_http1 :
      {Builder1 : Type 0} → Builder1 → Server A N S → Server A (Http1Builder Builder1) S
  unfolding from_http1
  with_http1 new1 s = b.with_protocol s (from_http1 new1)

  unfoldable pub with_http2 :
      {Builder2 : Type 0} → Builder2 → Server A N S → Server A (Http2Builder Builder2) S
  unfolding from_http2
  with_http2 new2 s = b.with_protocol s (from_http2 new2)

  -- `with_connection_info` and `with_tls_connection_info`.
  unfoldable pub with_connection_info :
      Server A N S → Server A N (MakeServiceConnectionInfoService S)
  with_connection_info s = b.map_service s (λ inner. record { inner = inner })

  unfoldable pub with_tls_connection_info :
      Server A N S → Server A N (MakeServiceTlsConnectionInfoService S)
  with_tls_connection_info s = b.map_service s (λ inner. record { inner = inner })
