-- ===== src/Layers/Made/Shows.antt =====
-- What the requests of an accepted stream carry when they reach the service that answers them.
use hyperdriver.Base.{
  zero, suc, map_ready, map_ok, map_err, ok, err, ready, pending, ℕ, ◌≡◌, ◌≢◌, refl, ap, ◌∙◌,
  Bool-cases, inl, inr, true, Option, none, some, and_then, unwrap_or, String, str_eq, eq_iff,
  Result, Poll, Outcome,
}
use hyperdriver.Http.{Http, Request}
use hyperdriver.Server.ConnInfo.{
  ConnectionWithInfo, ConnectionWithTlsInfo, Extended, insert_tls, insert_info, call, poll,
  poll_tls,
}
use hyperdriver.Server.Sni.{
  Authorities, TlsConnectionInfo, invalid_sni, missing_sni, compare_names, handle_tls, request_host,
  handle, SniMiddlewareError, inner,
}
use hyperdriver.Layers.{Service}
use hyperdriver.Layers.Bridge
use hyperdriver.Layers.Bridge.{Oneshot, on_ready, ready_after, bridge_call, bridge_call-ready_after}
use hyperdriver.Layers.Connection.{
  info_layer, call_with_tls, tls_info_layer, make_call, make_tls_call, SniFuture, refused, passed,
  sni_answer, sni_layer,
}
use hyperdriver.Layers.Made.{drive, services_of, make_stream, made, drive-made}

module _ (h : Http) (a : Authorities) {B A F E : Type 0}
    (s : Service (Extended (Request h B) A TlsConnectionInfo) F E) where
  -- What becomes of a request on a connection with this information: the indices are the host that it
  -- names, and the server name of the TLS handshake, both parsed.
  pub data Shown (t : s.State) (info : A) (tls : TlsConnectionInfo) (req : Request h B)
      : Option String → Option String → SniFuture F → Type 0 where
    no_name :
        {host : Option String}
        → Shown t info tls req host none (refused (missing_sni (unwrap_or "-" host)))
    no_host :
        {name : String}
        → Shown t info tls req none
            (some name)
            (passed (s.call t (record { request = req; info = some info; tls = some tls })).0)
    differs :
        {host name : String}
        → a.host host ≢ a.host name
        → Shown t info tls req (some host) (some name) (refused (invalid_sni host name))
    agrees :
        {host name : String}
        → a.host host ≡ a.host name
        → Shown t info tls req (some host) (some name) (
            passed
              (s.call t (record {
                request = req;
                info = some info;
                tls = some (record tls { validated = true });
              })).0)

  sni-Shown :
      (t : s.State) (info : A) (tls : TlsConnectionInfo) (req : Request h B)
      (host name : Option String)
      → Shown t info tls req host name
          (sni_answer h a s.call t
            (record { request = req; info = some info; tls = some tls })
            ((compare_names a host name tls).0, some (compare_names a host name tls).1)).0
  unfolding compare_names sni_answer
  sni-Shown t info tls req host none = no_name
  sni-Shown t info tls req none (some name) = no_host
  sni-Shown t info tls req (some host) (some name) =
      elim (Bool-cases (str_eq (a.host host) (a.host name))) [
        | inl same ↦ rw same (agrees ((eq_iff (a.host host) (a.host name)).0 same))
        | inr other ↦
            rw other (differs (λ k. let e = (eq_iff (a.host host) (a.host name)).1 k in cc))
      ]

  -- The check of the server name around `s`, for a request with the information put in.
  answer : s.State → A → TlsConnectionInfo → Request h B → SniFuture F
  answer t info tls req =
      (sni_answer h a s.call t (record { request = req; info = some info; tls = some tls })
        (handle h a req (some tls))).0

  answer-Shown :
      (t : s.State) (info : A) (tls : TlsConnectionInfo) (req : Request h B)
      → Shown t info tls req
          (request_host h a req)
          (and_then a.parse tls.server_name)
          (answer t info tls req)
  unfolding answer handle handle_tls
  answer-Shown t info tls req = sni-Shown t info tls req (request_host h a req) _

  module _ {Io Rx : Type 0} (info_of : Io → A) (recv : Io → Rx)
      (received : Rx → Option TlsConnectionInfo) where
    -- The service of a connection: the check of the server name around `s`, behind the information.
    abbrev pub checked :
        Service (Extended (Request h B) A TlsConnectionInfo) (SniFuture F) (SniMiddlewareError E)
    checked = info_layer (tls_info_layer received (sni_layer h a s))

    abbrev Services : Type 0
    Services = ConnectionWithInfo (ConnectionWithTlsInfo s.State Rx) A

    -- A request of a connection, as hyper gives it to its service, in at most `n + 1` polls and up to
    -- the future of the service that it is for.
    pub served :
        Oneshot checked
        → ℕ
        → Io
        → s.State
        → Request h B
        → Poll (Result (SniFuture F) (SniMiddlewareError E))
    unfolding info_layer tls_info_layer sni_layer
    served o n stream t req = Bridge.drive (checked) o n (
        bridge_call (checked) o (services_of info_of recv stream t)
          (record { request = req; info = none; tls = none }))

    abbrev wrap_all : Io → Poll (Result s.State E) → Poll (Result Services (SniMiddlewareError E))
    wrap_all stream p =
        map_ready (λ x. map_err inner (map_ok (services_of info_of recv stream) x)) p

    on_checked :
        (Services → Poll (Result Services (SniMiddlewareError E)))
        → Poll (Result (Unit {0}) (SniMiddlewareError E)) × Services
        → Poll (Result Services (SniMiddlewareError E))
    unfolding info_layer tls_info_layer sni_layer
    on_checked more p = on_ready (checked) more p

    checked_after : ℕ → Services → Poll (Result Services (SniMiddlewareError E))
    unfolding info_layer tls_info_layer sni_layer
    checked_after n c = ready_after (checked) n c

    ready_step :
        (stream : Io) (more : Services → Poll (Result Services (SniMiddlewareError E)))
        (waited : s.State → Poll (Result s.State E)) (p : Poll (Result (Unit {0}) E) × s.State)
        → ((t : s.State) → more (services_of info_of recv stream t) ≡ wrap_all stream (waited t))
        → on_checked more (map_ready (map_err inner) p.0, services_of info_of recv stream p.1)
          ≡ wrap_all stream (on_ready s waited p)
    unfolding on_checked on_ready
    ready_step stream more waited (ready (ok u), t) next = refl
    ready_step stream more waited (ready (err e), t) next = refl
    ready_step stream more waited (pending, t) next = next t

    checked_ready :
        (stream : Io) (n : ℕ) (t : s.State)
        → checked_after n (services_of info_of recv stream t) ≡ wrap_all stream (ready_after s n t)
    unfolding checked_after ready_after on_checked
    checked_ready stream zero t =
        ready_step stream (λ c. pending) (λ t'. pending) (s.poll_ready t) (λ t'. refl)
    checked_ready stream (suc n) t =
        ready_step stream (checked_after n) (ready_after s n) (s.poll_ready t)
          (checked_ready stream n)

    called :
        (stream : Io) (t : s.State) (tls : TlsConnectionInfo) (req : Request h B)
        (o : Option TlsConnectionInfo)
        → o ≡ some tls
        → let r =
            insert_tls o (record { request = req; info = some (info_of stream); tls = none }) in
          (sni_answer h a s.call t r (handle h a r.request r.tls)).0
          ≡ answer t (info_of stream) tls req
    unfolding answer
    called stream t tls req o e = rw e refl

    abbrev call_checked : Request h B → Services → SniFuture F
    call_checked req c =
        let r =
          insert_tls (received c.inner.rx)
            (insert_info c.info (record { request = req; info = none; tls = none })) in
        (sni_answer h a s.call c.inner.inner r (handle h a r.request r.tls)).0

    each :
        (stream : Io) (tls : TlsConnectionInfo) (req : Request h B) (p : Poll (Result s.State E))
        → received (recv stream) ≡ some tls
        → map_ready (map_ok (call_checked req)) (wrap_all stream p)
          ≡ map_ready (λ x. map_err inner (map_ok (λ t. answer t (info_of stream) tls req) x)) p
    each stream tls req (ready (ok t)) e =
        ap (λ f. ready (ok f)) (called stream t tls req (received (recv stream)) e)
    each stream tls req (ready (err x)) e = refl
    each stream tls req pending e = refl

    served-answer :
        (o : Oneshot checked) (n : ℕ) (stream : Io) (t : s.State) (tls : TlsConnectionInfo)
        (req : Request h B)
        → received (recv stream) ≡ some tls
        → served o n stream t req
          ≡ map_ready
              (λ x. map_err inner (map_ok (λ t'. answer t' (info_of stream) tls req) x))
              (ready_after s n (s.clone t))
    unfolding served checked_after info_layer tls_info_layer sni_layer call_with_tls call
    served-answer o n stream t tls req e =
        bridge_call-ready_after (checked) o n (services_of info_of recv stream t)
          (record { request = req; info = none; tls = none })
        ∙ ap (map_ready (map_ok (call_checked req))) (checked_ready stream n (s.clone t))
        ∙ each stream tls req (ready_after s n (s.clone t)) e

    -- A server that puts the information about the connection and about TLS into its requests, and
    -- checks the server name. For an accepted stream, its make-services give a service exactly when
    -- the make-service of its user does, after as many polls, and fail or panic with it. Through the
    -- bridge, each request of that stream waits, or fails, as a clone of the user's service does that
    -- is polled for readiness; and when that is ready, it is called with the request and the
    -- information of that stream and of its TLS handshake, or the request is refused, as the
    -- comparison of its host with the server name has it. The TLS information is marked as validated
    -- if they are the same.
    pub make_stream-Shown :
        {MF ME : Type 0} (make : Service Io MF ME)
        (poll_inner : MF → Outcome (Poll (Result s.State ME)) × MF) (o : Oneshot checked) (n : ℕ)
        (m : make.State) (stream : Io) (tls : TlsConnectionInfo)
        → received (recv stream) ≡ some tls
        → let running =
            drive (poll (poll_tls poll_inner)) n (make_stream info_of recv make m stream) in
          (running
            ≡ made info_of recv poll_inner stream (drive poll_inner n (make.call m stream).0))
          × ((answers : s.State → Request h B → SniFuture F) × ((k : ℕ) (t : s.State)
                  (req : Request h B)
                → served o k stream t req
                  ≡ map_ready
                      (λ x. map_err inner (map_ok (λ t'. answers t' req) x))
                      (ready_after s k (s.clone t)))
              × ((t : s.State) (req : Request h B)
                  → Shown t
                      (info_of stream)
                      tls
                      req
                      (request_host h a req)
                      (and_then a.parse tls.server_name)
                      (answers t req)))
    unfolding make_stream make_call make_tls_call
    make_stream-Shown make poll_inner o n m stream tls e = (
      drive-made info_of recv poll_inner stream n (make.call m stream).0,
      (
        λ t req. answer t (info_of stream) tls req,
        λ k t req. served-answer o k stream t tls req e,
        λ t req. answer-Shown t (info_of stream) tls req,
      ),
    )
