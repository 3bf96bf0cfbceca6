-- ===== src/Server/Builder/Parts.antt =====
-- The parts of a built server, whatever the order it was built in.
use hyperdriver.Base.{◌≡◌, refl, ap, ◌∙◌}
use hyperdriver.Server.Acceptor.{AcceptorCore, acceptor_of}
use hyperdriver.Server.Builder.{
  ServerBuilder, new_auto, with_incoming, with_auto_http, with_connection_info,
  with_tls_connection_info,
}

module _ (Server : Type 0 → Type 0 → Type 0 → Type 0) (b : ServerBuilder Server) where
  abbrev pub Has : {A P S : Type 0} → Server A P S → A → P → S → Type 0
  Has s a p m = (b.acceptor s ≡ a) × (b.protocol s ≡ p) × (b.make_service s ≡ m)

  start-Has :
      {A P S : Type 0} (s : Server A P S) → Has s (b.acceptor s) (b.protocol s) (b.make_service s)
  start-Has s = (refl, refl, refl)

  acceptor-Has :
      {N P S A : Type 0} {n : N} {p : P} {m : S} (s : Server N P S) (a : A)
      → Has s n p m
      → Has (b.with_acceptor s a) a p m
  acceptor-Has s a (e0, e1, e2) = let (f0, f1, f2) = b.set_acceptor s a in (f0, f1 ∙ e1, f2 ∙ e2)

  protocol-Has :
      {A N S P : Type 0} {a : A} {n : N} {m : S} (s : Server A N S) (p : P)
      → Has s a n m
      → Has (b.with_protocol s p) a p m
  protocol-Has s p (e0, e1, e2) = let (f0, f1, f2) = b.set_protocol s p in (f0 ∙ e0, f1, f2 ∙ e2)

  mapped-Has :
      {A P S S' : Type 0} {a : A} {p : P} {m : S} (s : Server A P S) (f : S → S')
      → Has s a p m
      → Has (b.map_service s f) a p (f m)
  mapped-Has s f (e0, e1, e2) = let (f0, f1, f2) = b.mapped s f in (f0 ∙ e0, f1 ∙ e1, f2 ∙ ap f e2)

  -- A server that is given an acceptor for a listener, the protocol that detects the version, and the
  -- make-services for both kinds of information has all of them around its own make-service, with
  -- the acceptor without TLS, whether the acceptor and the protocol are set first or last.
  pub built-Has :
      {Tcp Duplex Unix Tls N M S I Builder1 Builder2 : Type 0} (s : Server N M S)
      (into : I → AcceptorCore Tcp Duplex Unix) (incoming : I) (new1 : Builder1) (new2 : Builder2)
      → Has
          (with_connection_info Server b (
            with_tls_connection_info Server b (
              with_auto_http Server b new1 new2
                (with_incoming Server b Tcp Duplex Unix Tls into s incoming))))
          (acceptor_of into incoming)
          (new_auto new1 new2)
          (record { inner = record { inner = b.make_service s } })
        × Has
            (with_incoming Server b Tcp Duplex Unix Tls into
              (with_auto_http Server b new1 new2
                (with_connection_info Server b (with_tls_connection_info Server b s)))
              incoming)
            (acceptor_of into incoming)
            (new_auto new1 new2)
            (record { inner = record { inner = b.make_service s } })
  unfolding with_connection_info with_tls_connection_info with_auto_http with_incoming
  built-Has s into incoming new1 new2 = (
    mapped-Has _ _ (mapped-Has _ _ (protocol-Has _ _ (acceptor-Has s _ (start-Has s)))),
    acceptor-Has _ _ (protocol-Has _ _ (mapped-Has _ _ (mapped-Has s _ (start-Has s)))),
  )
