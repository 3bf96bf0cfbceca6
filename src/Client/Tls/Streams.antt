-- ===== src/Client/Tls/Streams.antt =====
-- The streams that come of connecting: which of them have TLS.
use hyperdriver.Base.{
  ℕ, zero, suc, ◌≡◌, refl, sym, ◌∙◌, Bool, true, false, Option, some, is_some, String, subst,
  map_err, map_ok, map_ready, Result, ok, err, Poll, ready, pending,
}
use hyperdriver.Http.{Http, Request}
use hyperdriver.Stream.{OptTlsStream}
use hyperdriver.Client.Key.{SameKey, build_key}
use hyperdriver.Client.Stream.{Stream, new, from_inner}
use hyperdriver.Client.Tls.{
  TlsTransport, AutoTlsTransport, get_host, Connect, from_plain, from_tls, call,
}
use hyperdriver.Client.Tls.Pooled.{IsExact, is_tls, call-is_tls}
use hyperdriver.Client.Tls.Future.{BraidFuture, plain, tls, start, call_https, poll, again, drive}

abbrev pub has_tls : {TlsStream IO : Type 0} → Stream TlsStream IO → Bool
has_tls s = elim s.inner [ OptTlsStream.tls t ↦ true | OptTlsStream.no_tls io ↦ false ]

module _ {FP FT IO TlsStream E X : Type 0} (poll_plain : FP → Poll (Result IO E) × FP)
    (poll_tls : FT → Poll (Result TlsStream X) × FT) (connection : E → X) where
  abbrev by_tls : BraidFuture FP FT → Bool
  by_tls (plain f) = false
  by_tls (tls f) = true

  -- If a stream comes of it, it has TLS or not, as `b` says.
  abbrev Gives : Bool → Poll (Result (Stream TlsStream IO) X) → Type 0
  Gives b (ready (ok s)) = has_tls s ≡ b
  Gives b (ready (err e)) = Unit
  Gives b pending = Unit

  abbrev Driven : Type 0
  Driven = Poll (Result (Stream TlsStream IO) X)

  plain_once :
      (r : Poll (Result IO E)) → Gives false (map_ready (λ r. map_err connection (map_ok new r)) r)
  unfolding new
  plain_once (ready (ok io)) = refl
  plain_once (ready (err e)) = tt
  plain_once pending = tt

  tls_once :
      (r : Poll (Result TlsStream X))
      → Gives true (map_ready (map_ok (λ s. from_inner (OptTlsStream.tls s))) r)
  unfolding from_inner
  tls_once (ready (ok s)) = refl
  tls_once (ready (err e)) = tt
  tls_once pending = tt

  again-Gives :
      (b : Bool) (more : BraidFuture FP FT → Driven) (r : Driven) (f : BraidFuture FP FT)
      → Gives b r
      → Gives b (more f)
      → Gives b (again poll_plain poll_tls connection more (r, f))
  unfolding again
  again-Gives b more (ready r) f g k = g
  again-Gives b more pending f g k = k

  drive-Gives :
      (n : ℕ) (f : BraidFuture FP FT) → Gives (by_tls f) (drive poll_plain poll_tls connection n f)
  unfolding drive poll
  drive-Gives zero (plain f) = plain_once (poll_plain f).0
  drive-Gives zero (tls f) = tls_once (poll_tls f).0
  drive-Gives (suc n) (plain f) =
      again-Gives false _ _ _ (plain_once (poll_plain f).0) (drive-Gives n (plain (poll_plain f).1))
  drive-Gives (suc n) (tls f) =
      again-Gives true _ _ _ (tls_once (poll_tls f).0) (drive-Gives n (tls (poll_tls f).1))

  Gives-ok :
      (b : Bool) (s : Stream TlsStream IO) (r : Driven)
      → Gives b r
      → r ≡ ready (ok s)
      → has_tls s ≡ b
  Gives-ok b s r g e = subst (Gives b) e g

  module _ {Req T Config : Type 0} (connect : T → Req → FP)
      (connect_tls : TlsTransport T Config → Req → Option String → FT) where
    by_tls-start :
        (c : Connect T Config) (req : Req) → by_tls (start connect connect_tls c req) ≡ is_tls c
    unfolding start
    by_tls-start (from_plain t) req = refl
    by_tls-start (from_tls t domain) req = refl

    pub connected :
        (n : ℕ) (c : Connect T Config) (req : Req) (s : Stream TlsStream IO)
        → drive poll_plain poll_tls connection n (start connect connect_tls c req) ≡ ready (ok s)
        → has_tls s ≡ is_tls c
    connected n c req s e =
        Gives-ok _ s _ (drive-Gives n (start connect connect_tls c req)) e ∙ by_tls-start c req

  module _ (h : Http) {B T Config : Type 0} (connect : T → Request h B → FP)
      (connect_tls : TlsTransport T Config → Request h B → Option String → FT) where
    -- Requests with a scheme and a host that the pool cannot tell apart that spell the
    -- schemes for TLS in lower case get streams that are alike:
    -- whatever streams the transport's futures give for the two, however often they are polled, both
    -- have TLS or neither has. So a pooled connection is never short of the TLS that a request wants.
    streams_alike :
        (a : AutoTlsTransport T Config) (r q : Request h B) (scheme_r scheme_q : String) (n m : ℕ)
        (s t : Stream TlsStream IO)
        → h.scheme r.uri ≡ some scheme_r
        → h.scheme q.uri ≡ some scheme_q
        → is_some (get_host h r) ≡ true
        → is_some (get_host h q) ≡ true
        → IsExact scheme_r
        → IsExact scheme_q
        → SameKey (build_key h r) (build_key h q)
        → drive poll_plain poll_tls connection n (start connect connect_tls (call h a r) r)
          ≡ ready (ok s)
        → drive poll_plain poll_tls connection m (start connect connect_tls (call h a q) q)
          ≡ ready (ok t)
        → has_tls s ≡ has_tls t
    streams_alike a r q scheme_r scheme_q n m s t er eq hr hq xr xq key es et =
        connected connect connect_tls n (call h a r) r s es
        ∙ call-is_tls h a r q scheme_r scheme_q er eq hr hq xr xq key
        ∙ sym (connected connect connect_tls m (call h a q) q t et)

    -- The transport that always uses TLS gives no stream without it.
    pub call_https-has_tls :
        (n : ℕ) (transport : TlsTransport T Config) (r : Request h B) (s : Stream TlsStream IO)
        → drive poll_plain poll_tls connection n (call_https h connect_tls transport r)
          ≡ ready (ok s)
        → has_tls s ≡ true
    unfolding call_https
    call_https-has_tls n transport r s e =
        Gives-ok true s _ (drive-Gives n (call_https h connect_tls transport r)) e
