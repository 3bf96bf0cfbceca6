-- ===== src/Client/Handshake/Builds.antt =====
-- A builder that connects one stream after the other.
use hyperdriver.Base.{
  ◌≡◌, refl, ap, ◌∙◌, Bool, true, false, if◌then◌else◌, List, [], ◌∷◌, Option, String, Result, ok,
  err,
}
use hyperdriver.Info.{HttpProtocol, http1, http2, http3, multiplex}
use hyperdriver.Client.Handshake.{
  HttpConnection, AutoHttpProtocolError, http1_error, http2_error, unsupported_protocol, version,
  can_share, has_h2, multiplex_ready, AlpnHttpConnectionBuilder, clone_builder, call,
}
use hyperdriver.Client.Handshake.Picks.{can_share-multiplex, picked, Connects, handshake-Connects}

multiplex-picked : (b : Bool) → multiplex (picked b http1) ≡ b
unfolding multiplex
multiplex-picked true = refl
multiplex-picked false = refl

module _ {Builder1 Builder2 Io Send1 Send2 E : Type 0} (tls_info : Io → Option (Option String))
    (connect1 : Builder1 → Io → Result Send1 E) (connect2 : Builder2 → Io → Result Send2 E)
    (clone1 : Builder1 → Builder1) (clone2 : Builder2 → Builder2) where
  abbrev Built : Type 0
  Built = Result (HttpConnection Send1 Send2) (AutoHttpProtocolError E)

  abbrev Builds : Type 0
  Builds = AlpnHttpConnectionBuilder Builder1 Builder2

  -- The pool's question before the handshake; hyper's builders have no part in the answer.
  abbrev pub agreed : Builds → Io → Bool
  agreed b io = multiplex_ready tls_info (connect1 b.http1) (connect2 b.http2) io

  -- What is to come of a stream, if `agreed` is asked first and `p` is the protocol to begin with.
  abbrev pub Predicted : Bool → HttpProtocol → Built → Type 0
  Predicted ready p (ok c) =
      (version c ≡ picked ready p)
      × (can_share c ≡ multiplex (picked ready p))
      × (p ≡ http1 → can_share c ≡ ready)
  Predicted ready http1 (err e) = (x : E) × (e ≡ (if ready then http2_error x else http1_error x))
  Predicted ready http2 (err e) = (x : E) × (e ≡ http2_error x)
  Predicted ready http3 (err e) = e ≡ unsupported_protocol http3

  abbrev pub AllPredicted : Builds → HttpProtocol → List Io → List Built → Type 0
  AllPredicted b p [] [] = Unit
  AllPredicted b p (io ∷ ios) (r ∷ rs) = Predicted (agreed b io) p r × AllPredicted b p ios rs
  AllPredicted b p [] (r ∷ rs) = ⊥
  AllPredicted b p (io ∷ ios) [] = ⊥

  -- One call after the other, each on the builder that the last one has left.
  unfoldable pub connect_all : Builds → List Io → List Built
  connect_all b [] = []
  connect_all b (io ∷ ios) =
      let (r, b') = call tls_info connect1 connect2 clone1 clone2 b io in r ∷ connect_all b' ios

  module _ (b : Builds) where
    from-Connects :
        (ready : Bool) (p : HttpProtocol) (r : Built)
        → Connects tls_info (connect1 b.http1) (connect2 b.http2) (picked ready p) r
        → Predicted ready p r
    from-Connects ready p (ok c) e =
        let shared : can_share c ≡ multiplex (picked ready p) =
          (can_share-multiplex (λ s. s) c).0 ∙ ap multiplex e in
        (e, shared, λ h. shared ∙ ap (λ q. multiplex (picked ready q)) h ∙ multiplex-picked ready)
    from-Connects true http1 (err x) e = e
    from-Connects false http1 (err x) e = e
    from-Connects ready http2 (err x) e = e
    from-Connects ready http3 (err x) e = e

    pub call-Predicted :
        (io : Io)
        → Predicted
            (agreed b io)
            b.initial_protocol
            (call tls_info connect1 connect2 clone1 clone2 b io).0
    unfolding call
    call-Predicted io =
        from-Connects (agreed b io) b.initial_protocol _
          (handshake-Connects tls_info (connect1 b.http1) (connect2 b.http2) io b.initial_protocol)

  -- `agreed` depends on the stream alone.
  any_builder :
      (b b' : Builds) (p : HttpProtocol) (ios : List Io) (rs : List Built)
      → AllPredicted b' p ios rs
      → AllPredicted b p ios rs
  unfolding multiplex_ready has_h2
  any_builder b b' p [] [] h = h
  any_builder b b' p (io ∷ ios) (r ∷ rs) (h, hs) = (h, any_builder b b' p ios rs hs)
  any_builder b b' p [] (r ∷ rs) h = absurd h
  any_builder b b' p (io ∷ ios) [] h = absurd h

  -- A builder connects every stream that it is called with as was to be expected of the stream, however
  -- many it has connected before. The protocol is the one that the builder is set to begin with,
  -- whatever the requests are, except that HTTP/1 becomes HTTP/2 where the TLS handshake agreed on
  -- "h2"; the error is the one of that protocol, and HTTP/3 is refused. The connection is shared if the
  -- protocol multiplexes; so a builder that begins with HTTP/1 makes a connection that can be shared
  -- exactly of the streams that `multiplex_ready` says it of.
  pub connect_all-AllPredicted :
      (b : Builds) (ios : List Io) → AllPredicted b b.initial_protocol ios (connect_all b ios)
  unfolding connect_all call clone_builder
  connect_all-AllPredicted b [] = tt
  connect_all-AllPredicted b (io ∷ ios) = (
    call-Predicted b io,
    any_builder b (clone_builder clone1 clone2 b) b.initial_protocol ios _
        (connect_all-AllPredicted (clone_builder clone1 clone2 b) ios),
  )
