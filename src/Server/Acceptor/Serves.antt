-- ===== src/Server/Acceptor/Serves.antt =====
-- What a server reads and writes on an accepted stream.
use hyperdriver.Base.{
  ◌≡◌, refl, sym, ap, ◌∙◌, List, Result, ok, err, Poll, ready, pending, map_ready, map_ok,
}
use hyperdriver.Stream.{AsyncIo, Braid, OptTlsStream, braid_io}
use hyperdriver.Stream.Refines.{
  Op, read, write, flush, shutdown, perform_all, Refines, Refines-perform_all, Refines-trans,
  tcp-Refines,
}
use hyperdriver.Server.Acceptor.{
  Stream, new, io_call, stream_io, Accept, core_accept, poll_accept, core_of_tcp, acceptor_of,
}

module _ {TlsStream IO Info : Type 0} (io : AsyncIo (OptTlsStream TlsStream IO)) (info : Info) where
  abbrev pub with_info : OptTlsStream TlsStream IO → Stream TlsStream IO Info
  with_info i = record { info = info; inner = i }

  stream-Refines : Refines io (stream_io io) with_info
  unfolding stream_io io_call
  stream-Refines i (read n) = refl
  stream-Refines i (write bs) = refl
  stream-Refines i flush = refl
  stream-Refines i shutdown = refl

module _ {L1 L2 L3 Tls T D U TlsStream Info E : Type 0} (tcp_accept : Accept L1 T E)
    (duplex_accept : Accept L2 D E) (unix_accept : Accept L3 U E)
    (tls_core : Accept Tls TlsStream E) (io_info : Braid T D U → Info)
    (tls_info : TlsStream → Info) where
  abbrev Accepted : Type 0
  Accepted = Stream TlsStream (Braid T D U) Info

  inversion :
      (r : Poll (Result T E)) (s : Accepted)
      → map_ready (map_ok (new io_info)) (map_ready (map_ok Braid.tcp) r) ≡ ready (ok s)
      → (c : T) × (r ≡ ready (ok c)) × (new io_info (Braid.tcp c) ≡ s)
  inversion (ready (ok c)) s e = (c, refl, cc)
  inversion (ready (err x)) s e = cc
  inversion pending s e = cc

  module _ (t : AsyncIo T) (d : AsyncIo D) (u : AsyncIo U)
      (opt : AsyncIo (OptTlsStream TlsStream (Braid T D U)))
      (plain : Refines (braid_io t d u) opt OptTlsStream.no_tls) where
    over_tcp :
        (info : Info)
        → Refines t (stream_io opt) (λ c. with_info opt info (OptTlsStream.no_tls (Braid.tcp c)))
    over_tcp info =
        Refines-trans t opt (stream_io opt) (λ c. OptTlsStream.no_tls (Braid.tcp c))
          (with_info opt info)
          (Refines-trans t (braid_io t d u) opt Braid.tcp OptTlsStream.no_tls (tcp-Refines t d u)
            plain)
          (stream-Refines opt info)

    served :
        (c : T) (ops : List Op)
        → perform_all (stream_io opt) (new io_info (Braid.tcp c)) ops ≡ (
          (perform_all t c ops).0,
          with_info opt
              (io_info (Braid.tcp c))
              (OptTlsStream.no_tls (Braid.tcp (perform_all t c ops).1)),
        )
    unfolding new
    served c ops = Refines-perform_all t (stream_io opt) _ (over_tcp (io_info (Braid.tcp c))) c ops

    -- A stream that an acceptor made of a TCP listener accepts is one that the listener accepted, and a
    -- server that reads, writes, flushes and shuts down on it has the answers of that TCP stream, in
    -- every sequence. Its information about the connection stays what it was when it was accepted.
    pub accepted-perform_all :
        (l : L1) (s : Accepted)
        → (poll_accept
            (core_accept tcp_accept duplex_accept unix_accept)
            tls_core
            io_info
            tls_info
            (acceptor_of core_of_tcp l)).0
          ≡ ready (ok s)
        → (c : T) × ((tcp_accept l).0 ≡ ready (ok c))
          × ((ops : List Op)
              → perform_all (stream_io opt) s ops ≡ (
                (perform_all t c ops).0,
                record {
                  info = io_info (Braid.tcp c);
                  inner = OptTlsStream.no_tls (Braid.tcp (perform_all t c ops).1);
                },
              ))
    unfolding poll_accept core_accept acceptor_of core_of_tcp
    accepted-perform_all l s e =
        let (c, accepted, same) = inversion (tcp_accept l).0 s e in
        (c, accepted, λ ops. ap (λ x. perform_all (stream_io opt) x ops) (sym same) ∙ served c ops)
