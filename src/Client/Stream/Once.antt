-- ===== src/Client/Stream/Once.antt =====
-- The client's stream answers as the stream below it.
use hyperdriver.Base.{◌≡◌, refl, List}
use hyperdriver.Stream.{
  AsyncIo, Braid, OptTlsStream, no_tls, braid_io, tcp, duplex, unix, from_tcp, from_duplex,
  from_unix,
}
use hyperdriver.Stream.Refines.{
  Op, read, write, flush, shutdown, perform_all, Refines, Refines-perform_all, Refines-trans,
  tcp-Refines, duplex-Refines, unix-Refines,
}
use hyperdriver.Client.Stream.{on_inner, stream_io, stream_of_tcp, stream_of_duplex, stream_of_unix}

-- A call on a stream is the call on what it holds.
stream-Refines :
    {TlsStream IO : Type 0} (io : AsyncIo (OptTlsStream TlsStream IO))
    → Refines io (stream_io io) (λ i. record { inner = i })
unfolding stream_io on_inner
stream-Refines io i (read n) = refl
stream-Refines io i (write bs) = refl
stream-Refines io i flush = refl
stream-Refines io i shutdown = refl

-- `plain` is chateau's: an `OptTlsStream` without TLS passes each call on.
module _ {TlsStream T D U : Type 0} (t : AsyncIo T) (d : AsyncIo D) (u : AsyncIo U)
    (opt : AsyncIo (OptTlsStream TlsStream (Braid T D U)))
    (plain : Refines (braid_io t d u) opt no_tls) where
  over_braid :
      {S : Type 0} (io : AsyncIo S) (kind : S → Braid T D U)
      → Refines io (braid_io t d u) kind
      → Refines io (stream_io opt) (λ s. record { inner = no_tls (kind s) })
  over_braid io kind r =
      Refines-trans io opt (stream_io opt) (λ s. no_tls (kind s)) (λ i. record { inner = i })
        (Refines-trans io (braid_io t d u) opt kind no_tls r plain) (stream-Refines opt)

  -- A client stream made of a TCP, duplex or Unix stream refines it: every sequence of reads, writes,
  -- flushes and shutdowns has the answers that the stream itself would give, and leaves the client
  -- stream made of what the stream would have become.
  pub stream_of-perform_all :
      (ops : List Op) (s : T) (s' : D) (s'' : U)
      → (perform_all (stream_io opt) (stream_of_tcp s) ops
          ≡ ((perform_all t s ops).0, stream_of_tcp (perform_all t s ops).1))
        × (perform_all (stream_io opt) (stream_of_duplex s') ops
            ≡ ((perform_all d s' ops).0, stream_of_duplex (perform_all d s' ops).1))
        × (perform_all (stream_io opt) (stream_of_unix s'') ops
            ≡ ((perform_all u s'' ops).0, stream_of_unix (perform_all u s'' ops).1))
  unfolding stream_of_tcp stream_of_duplex stream_of_unix from_tcp from_duplex from_unix
  stream_of-perform_all ops s s' s'' = (
    Refines-perform_all t (stream_io opt) _ (over_braid t tcp (tcp-Refines t d u)) s ops,
    Refines-perform_all d (stream_io opt) _ (over_braid d duplex (duplex-Refines t d u)) s' ops,
    Refines-perform_all u (stream_io opt) _ (over_braid u unix (unix-Refines t d u)) s'' ops,
  )
