-- ===== src/Service/Executor/Keeps.antt =====
-- Headers that no layer is about go through all of them, on every protocol.
use hyperdriver.Base.{
  ◌≡◌, refl, sym, ap, ◌∙◌, ◌≢◌, subst, Bool, false, if◌then◌else◌, Option, none, some, ◌∷◌, String,
  Result, ok, err, Outcome, value, panic, ◌>>=◌,
}
use hyperdriver.Http.{Http, Request, Method, connect, other}
use hyperdriver.Info.{HttpProtocol, http1, http2, http3}
use hyperdriver.Service.Host.{call_connection}
use hyperdriver.Service.Host.Sets.{
  SetsHost, set_host_header-SetsHost, call_connection-http1, call_connection-http2,
  call_connection-http3,
}
use hyperdriver.Service.Checks.{connection_headers, HttpRequestError, check_http1_request}
use hyperdriver.Service.Checks.Http2.{listed, CheckedFor, check_http2_request-CheckedFor}
use hyperdriver.Service.Checks.Forms.{SentFor, check_http1_request-SentFor}
use hyperdriver.Service.Executor.{then_http1, execute}

unwrap : {A : Type 0} → A → Outcome A → A
unwrap d (value x) = x
unwrap d panic = d

unwrap_ok : {A E : Type 0} → A → Result A E → A
unwrap_ok d (ok x) = x
unwrap_ok d (err e) = d

ok-injective : {A E : Type 0} {x y : A} → ◌≡◌ {A = Result A E} (ok x) (ok y) → x ≡ y
unfolding unwrap_ok
ok-injective {x = x} e = ap (unwrap_ok x) e

err-ne-ok : {A E : Type 0} {x : E} {y : A} → ◌≢◌ {A = Result A E} (err x) (ok y)
err-ne-ok e = cc

value-injective : {A : Type 0} {x y : A} → value x ≡ value y → x ≡ y
unfolding unwrap
value-injective {x = x} e = ap (unwrap x) e

bind-value :
    {A B : Type 0} (o : Outcome A) (f : A → Outcome B) (y : B)
    → (o >>= f) ≡ value y
    → (x : A) × (o ≡ value x) × (f x ≡ value y)
bind-value (value x) f y e = (x, refl, e)
bind-value panic f y e = cc

module _ (h : Http) (debug : Bool) {B : Type 0} (E : Type 0) (k : String) where
  abbrev Same : Request h B → Request h B → Type 0
  Same req req' = h.get req'.headers k ≡ h.get req.headers k

  host_keeps :
      (o : Option String) (req mid : Request h B) (x : Outcome (Request h B))
      → "host" ≢ k
      → SetsHost h o req x
      → x ≡ value mid
      → Same req mid
  host_keeps none req mid x n s e =
      let same : req ≡ mid = value-injective (sym s ∙ e) in ap (λ r. h.get r.headers k) (sym same)
  host_keeps (some name) req mid x n (mid', s, host) e =
      let same : mid' ≡ mid = value-injective (sym s ∙ e) in subst (Same req) same (host.others k n)

  call_keeps :
      (protocol : HttpProtocol) (req mid : Request h B)
      → "host" ≢ k
      → call_connection h protocol req ≡ value mid
      → Same req mid
  call_keeps http1 req mid n e =
      host_keeps (h.host req.uri) req mid _ n (set_host_header-SetsHost h req)
        (sym (call_connection-http1 h req) ∙ e)
  call_keeps http2 req mid n e =
      host_keeps none req mid _ n refl (sym (call_connection-http2 h req) ∙ e)
  call_keeps http3 req mid n e =
      host_keeps none req mid _ n refl (sym (call_connection-http3 h req) ∙ e)

  unchanged :
      (req mid : Request h B) (r : Result (Request h B) (HttpRequestError E))
      → r ≡ ok req
      → r ≡ ok mid
      → Same req mid
  unchanged req mid r a e = ap (λ q. h.get q.headers k) (ok-injective (sym e ∙ a))

  check2_keeps :
      (protocol : HttpProtocol) (m : Method) (req mid : Request h B)
      (r : Result (Request h B) (HttpRequestError E))
      → listed ("host" ∷ connection_headers) k ≡ false
      → CheckedFor h E protocol m req r
      → r ≡ ok mid
      → Same req mid
  check2_keeps http1 m req mid r n c e = unchanged req mid r c e
  check2_keeps http3 m req mid r n c e = unchanged req mid r c e
  check2_keeps http2 connect req mid r n c e = cc
  check2_keeps http2 (other m) req mid r n (mid', c, cleaned) e =
      let same : mid' ≡ mid = ok-injective (sym c ∙ e) in
      subst (Same req) same
        (cleaned.headers k ∙ ap (λ b. if b then none else h.get req.headers k) n)

  check1_keeps :
      (protocol : HttpProtocol) (req mid : Request h B) (o : Outcome (Request h B))
      → SentFor h debug protocol req o
      → o ≡ value mid
      → Same req mid
  check1_keeps http1 req mid o (value u, sent, s) e =
      ap (λ q. h.get q.headers k) (value-injective (sym e ∙ s))
  check1_keeps http1 req mid o (panic, sent, s) e = cc
  check1_keeps http2 req mid o s e = ap (λ q. h.get q.headers k) (value-injective (sym e ∙ s))
  check1_keeps http3 req mid o s e = ap (λ q. h.get q.headers k) (value-injective (sym e ∙ s))

  checks_keep :
      (protocol : HttpProtocol) (req req' : Request h B)
      (r : Result (Request h B) (HttpRequestError E))
      → listed ("host" ∷ connection_headers) k ≡ false
      → CheckedFor h E protocol req.method req r
      → then_http1 h debug protocol r ≡ value (ok req')
      → Same req req'
  unfolding then_http1
  checks_keep protocol req req' (err x) n c e = absurd (err-ne-ok (value-injective e))
  checks_keep protocol req req' (ok mid) n c e =
      let (last, made, same) =
        bind-value (check_http1_request h debug protocol mid) _ (ok req') e in
      let last' : last ≡ req' = ok-injective (value-injective same) in
      subst (Same req) last' (
        check1_keeps protocol mid last _ (check_http1_request-SentFor h debug protocol mid) made
        ∙ check2_keeps protocol req.method req mid (ok mid) n c refl)

  -- A header other than Host and the connection headers reaches the connection as it was in the
  -- request, whatever its protocol, if the request reaches it at all.
  pub execute-get :
      (protocol : HttpProtocol) (req req' : Request h B)
      → "host" ≢ k
      → listed ("host" ∷ connection_headers) k ≡ false
      → execute h debug {E = E} protocol req ≡ value (ok req')
      → h.get req'.headers k ≡ h.get req.headers k
  unfolding execute
  execute-get protocol req req' n m e =
      let (mid, set, rest) = bind-value (call_connection h protocol req) _ (ok req') e in
      checks_keep protocol mid req' _ m (check_http2_request-CheckedFor h E protocol mid) rest
      ∙ call_keeps protocol req mid n set
