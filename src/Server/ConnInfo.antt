-- ===== src/Server/ConnInfo.antt =====
-- src/server/conn/info.rs: the services of a connection that put what is known of the connection into
-- its requests.
use hyperdriver.Base.{
  Option, none, some, Result, ok, err, Poll, ready, pending, Outcome, value, panic,
}

-- A request with the extensions that this code sets: `ConnectionInfo` and `TlsConnectionInfo`.
pub record Extended (Req A T : Type 0) : Type 0 where
  pub request : Req
  pub info : Option A
  pub tls : Option T

-- `ConnectionWithInfo`.
pub record ConnectionWithInfo (S A : Type 0) : Type 0 where
  pub inner : S
  pub info : Option A

-- `ConnectionWithTlsInfo`, over its receiver `Rx`.
pub record ConnectionWithTlsInfo (S Rx : Type 0) : Type 0 where
  pub inner : S
  pub rx : Rx

-- `extensions_mut().insert(info)`: it replaces what was there of the same type.
abbrev pub insert_info : {Req A T : Type 0} → Option A → Extended Req A T → Extended Req A T
insert_info none req = req
insert_info (some a) req = record req { info = some a }

abbrev pub insert_tls : {Req A T : Type 0} → Option T → Extended Req A T → Extended Req A T
insert_tls none req = req
insert_tls (some t) req = record req { tls = some t }

module _ {S Req A T Out : Type 0} (clone : S → S)
    (call_inner : S → Extended Req A T → Out × S) where
  -- `ConnectionWithInfo::call`: the inner service is called and dropped, its clone stays.
  unfoldable pub call : ConnectionWithInfo S A → Extended Req A T → Out × ConnectionWithInfo S A
  call c req =
      let (out, _) = call_inner c.inner (insert_info c.info req) in
      (out, record { inner = clone c.inner; info = none })

-- `MakeServiceConnectionInfoFuture`.
pub record MakeInfoFuture (F A : Type 0) : Type 0 where
  pub future : F
  pub info : Option A

-- `MakeServiceTlsConnectionInfoFuture`, over the receiver `Rx`.
pub record MakeTlsInfoFuture (F Rx : Type 0) : Type 0 where
  pub future : F
  pub rx : Option Rx

module _ {F S A E : Type 0} where
  unfoldable pub on_poll :
      Option A
      → Outcome (Poll (Result S E)) × F
      → Outcome (Poll (Result (ConnectionWithInfo S A) E)) × MakeInfoFuture F A
  on_poll info (panic, f) = (panic, record { future = f; info = info })
  on_poll info (value (ready (ok s)), f) =
      (value (ready (ok (record { inner = s; info = info }))), record { future = f; info = none })
  on_poll info (value (ready (err e)), f) =
      (value (ready (err e)), record { future = f; info = info })
  on_poll info (value pending, f) = (value pending, record { future = f; info = info })

  -- `MakeServiceConnectionInfoFuture::poll`.
  unfoldable pub poll :
      (F → Outcome (Poll (Result S E)) × F)
      → MakeInfoFuture F A
      → Outcome (Poll (Result (ConnectionWithInfo S A) E)) × MakeInfoFuture F A
  unfolding on_poll
  poll poll_inner m = on_poll m.info (poll_inner m.future)

module _ {F S Rx E : Type 0} where
  -- `rx.take().expect("future polled after completion")`.
  unfoldable pub with_receiver :
      S
      → F
      → Option Rx
      → Outcome (Poll (Result (ConnectionWithTlsInfo S Rx) E)) × MakeTlsInfoFuture F Rx
  with_receiver s f none = (panic, record { future = f; rx = none })
  with_receiver s f (some rx) =
      (value (ready (ok (record { inner = s; rx = rx }))), record { future = f; rx = none })

  unfoldable pub on_poll_tls :
      Option Rx
      → Outcome (Poll (Result S E)) × F
      → Outcome (Poll (Result (ConnectionWithTlsInfo S Rx) E)) × MakeTlsInfoFuture F Rx
  unfolding with_receiver
  on_poll_tls rx (panic, f) = (panic, record { future = f; rx = rx })
  on_poll_tls rx (value (ready (ok s)), f) = with_receiver s f rx
  on_poll_tls rx (value (ready (err e)), f) =
      (value (ready (err e)), record { future = f; rx = rx })
  on_poll_tls rx (value pending, f) = (value pending, record { future = f; rx = rx })

  -- `MakeServiceTlsConnectionInfoFuture::poll`.
  unfoldable pub poll_tls :
      (F → Outcome (Poll (Result S E)) × F)
      → MakeTlsInfoFuture F Rx
      → Outcome (Poll (Result (ConnectionWithTlsInfo S Rx) E)) × MakeTlsInfoFuture F Rx
  unfolding on_poll_tls
  poll_tls poll_inner m = on_poll_tls m.rx (poll_inner m.future)
