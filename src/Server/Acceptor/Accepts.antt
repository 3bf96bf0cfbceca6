-- ===== src/Server/Acceptor/Accepts.antt =====
-- A plain acceptor gives plain streams, and one with TLS only TLS streams, however often it is polled.
use hyperdriver.Base.{
  ℕ, zero, suc, ◌≡◌, refl, List, [], ◌∷◌, All, Result, ok, err, Poll, ready, pending, value,
  map_ready, map_ok,
}
use hyperdriver.Io.{IoError}
use hyperdriver.Server.Acceptor.{
  Stream, new, from_tls, handshake_inner, poll_handshake, recv_inner, recv, Acceptor, no_tls, tls,
  with_tls, Accept, poll_accept,
}

module _ {Core Tls TlsStream IO Info E : Type 0} (core : Accept Core IO E)
    (tls_core : Accept Tls TlsStream E) (io_info : IO → Info) (tls_info : TlsStream → Info) where
  -- The results of `n` polls, one after the other.
  pub accept_all : ℕ → Acceptor Core Tls → List (Poll (Result (Stream TlsStream IO Info) E))
  accept_all zero a = []
  accept_all (suc n) a =
      let (r, a') = poll_accept core tls_core io_info tls_info a in r ∷ accept_all n a'

  -- If a stream was accepted, it is the TLS stream of chateau's acceptor, with its information.
  abbrev pub IsSecure : Poll (Result (Stream TlsStream IO Info) E) → Type 0
  IsSecure (ready (ok s)) = (t : TlsStream) × (s ≡ from_tls tls_info t)
  IsSecure (ready (err e)) = Unit
  IsSecure pending = Unit

  -- If a stream was accepted, it is plain, with the information of its connection.
  abbrev pub IsPlain : Poll (Result (Stream TlsStream IO Info) E) → Type 0
  IsPlain (ready (ok s)) = (io : IO) × (s ≡ new io_info io)
  IsPlain (ready (err e)) = Unit
  IsPlain pending = Unit

  secured : (r : Poll (Result TlsStream E)) → IsSecure (map_ready (map_ok (from_tls tls_info)) r)
  secured (ready (ok t)) = (t, refl)
  secured (ready (err e)) = tt
  secured pending = tt

  plain : (r : Poll (Result IO E)) → IsPlain (map_ready (map_ok (new io_info)) r)
  plain (ready (ok io)) = (io, refl)
  plain (ready (err e)) = tt
  plain pending = tt

  tls-IsSecure : (n : ℕ) (a : Tls) → All IsSecure (accept_all n (tls a))
  unfolding accept_all poll_accept
  tls-IsSecure zero a = tt
  tls-IsSecure (suc n) a = (secured (tls_core a).0, tls-IsSecure n (tls_core a).1)

  -- An acceptor that `with_tls` has made gives no stream without TLS, in any number of polls.
  pub with_tls-IsSecure :
      (new_tls : Core → Tls) (a a' : Acceptor Core Tls) (n : ℕ)
      → with_tls new_tls a ≡ value a'
      → All IsSecure (accept_all n a')
  unfolding with_tls
  with_tls-IsSecure new_tls (no_tls c) (tls t) n e = tls-IsSecure n t
  with_tls-IsSecure new_tls (no_tls c) (no_tls d) n e = cc
  with_tls-IsSecure new_tls (tls t) a' n e = cc

  -- An acceptor without TLS gives plain streams, in any number of polls.
  pub no_tls-IsPlain : (n : ℕ) (c : Core) → All IsPlain (accept_all n (no_tls c))
  unfolding accept_all poll_accept
  no_tls-IsPlain zero c = tt
  no_tls-IsPlain (suc n) c = (plain (core c).0, no_tls-IsPlain n (core c).1)

  -- The handshake of a plain stream is over at once and leaves the stream as it is, and the
  -- stream has no TLS information to wait for.
  pub new-handshake :
      {R : Type 0} (poll_tls : TlsStream → Poll (Result (Unit {0}) IoError) × TlsStream)
      (recv_tls : TlsStream → R) (no_info : R) (io : IO)
      → (poll_handshake poll_tls (new io_info io) ≡ (ready (ok tt), new io_info io))
        × (recv recv_tls no_info (new io_info io) ≡ no_info)
  unfolding poll_handshake handshake_inner recv recv_inner new
  new-handshake poll_tls recv_tls no_info io = (refl, refl)
