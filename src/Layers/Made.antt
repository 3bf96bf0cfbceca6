-- ===== src/Layers/Made.antt =====
-- src/server/conn/info.rs and src/server/builder.rs: what a server makes for a stream that it accepted,
-- and what the requests of that stream then carry.
pub mod Shows
use hyperdriver.Base.{
  ℕ, zero, suc, ◌≡◌, ◌≢◌, refl, sym, ap, ◌∙◌, List, [], ◌∷◌, map, Bool-cases, inl, inr, true, false,
  Option, none, some, and_then, unwrap_or, String, str_eq, eq_iff, Result, ok, err, Poll, ready,
  pending, map_ready, map_ok, Outcome, value, panic, ◌>>=◌,
}
use hyperdriver.Http.{Http, Request}
use hyperdriver.Server.ConnInfo
use hyperdriver.Server.ConnInfo.{
  Extended, ConnectionWithInfo, ConnectionWithTlsInfo, MakeInfoFuture, MakeTlsInfoFuture,
  insert_info, insert_tls, on_poll, on_poll_tls, with_receiver, poll, poll_tls,
}
use hyperdriver.Server.Sni.{
  Authorities, TlsConnectionInfo, invalid_sni, missing_sni, compare_names, handle_tls, request_host,
  handle, ValidateSniError,
}
use hyperdriver.Layers.{Service}
use hyperdriver.Layers.Connection.{
  info_layer, call_with_tls, tls_info_layer, make_call, make_info_layer, make_tls_call,
  make_tls_info_layer, SniFuture, refused, passed, sni_answer, sni_layer,
}

-- A task polls a future, and after `Pending` at most `n` more times.
module _ {F A : Type 0} where
  again : (F → Outcome (Poll A)) → Outcome (Poll A) × F → Outcome (Poll A)
  again more (value pending, f) = more f
  again more (value (ready a), f) = value (ready a)
  again more (panic, f) = panic

  unfoldable pub drive : (F → Outcome (Poll A) × F) → ℕ → F → Outcome (Poll A)
  unfolding again
  drive poll_it zero f = (poll_it f).0
  drive poll_it (suc n) f = again (drive poll_it n) (poll_it f)

module _ {Io A Rx : Type 0} (info_of : Io → A) (recv : Io → Rx) where
  -- The services for a stream, around the one that the server's user made for it.
  abbrev pub services_of : {S : Type 0} → Io → S → ConnectionWithInfo (ConnectionWithTlsInfo S Rx) A
  services_of stream t = record {
    inner = record { inner = t; rx = recv stream };
    info = some (info_of stream);
  }

  -- The make-services of the server, around its user's, called for a stream.
  unfoldable pub make_stream :
      {F E : Type 0} (make : Service Io F E)
      → make.State
      → Io
      → MakeInfoFuture (MakeTlsInfoFuture F Rx) A
  unfolding make_info_layer make_tls_info_layer
  make_stream make m stream =
      ((make_info_layer info_of (make_tls_info_layer recv make)).call m stream).0

  module _ {F S E : Type 0} (poll_inner : F → Outcome (Poll (Result S E)) × F) where
    abbrev pub made :
        Io
        → Outcome (Poll (Result S E))
        → Outcome (Poll (Result (ConnectionWithInfo (ConnectionWithTlsInfo S Rx) A) E))
    made stream o = o >>= λ p. value (map_ready (map_ok (services_of stream)) p)

    abbrev pending_on : Io → F → MakeInfoFuture (MakeTlsInfoFuture F Rx) A
    pending_on stream f = record {
      future = record { future = f; rx = some (recv stream) };
      info = some (info_of stream);
    }

    again-made :
        (stream : Io) (n : ℕ) (p : Outcome (Poll (Result S E)) × F)
        → ((f : F)
            → drive (poll (poll_tls poll_inner)) n (pending_on stream f)
              ≡ made stream (drive poll_inner n f))
        → again
            (drive (poll (poll_tls poll_inner)) n)
            (on_poll (some (info_of stream)) (on_poll_tls (some (recv stream)) p))
          ≡ made stream (again (drive poll_inner n) p)
    unfolding again on_poll on_poll_tls with_receiver
    again-made stream n (panic, f) ih = refl
    again-made stream n (value (ready (ok t)), f) ih = refl
    again-made stream n (value (ready (err e)), f) ih = refl
    again-made stream n (value pending, f) ih = ih f

    at_once :
        (stream : Io) (p : Outcome (Poll (Result S E)) × F)
        → (on_poll (some (info_of stream)) (on_poll_tls (some (recv stream)) p)).0 ≡ made stream p.0
    unfolding on_poll on_poll_tls with_receiver
    at_once stream (panic, f) = refl
    at_once stream (value (ready (ok t)), f) = refl
    at_once stream (value (ready (err e)), f) = refl
    at_once stream (value pending, f) = refl

    pub drive-made :
        (stream : Io) (n : ℕ) (f : F)
        → drive (poll (poll_tls poll_inner)) n (pending_on stream f)
          ≡ made stream (drive poll_inner n f)
    unfolding drive poll poll_tls
    drive-made stream zero f = at_once stream (poll_inner f)
    drive-made stream (suc n) f = again-made stream n (poll_inner f) (drive-made stream n)
