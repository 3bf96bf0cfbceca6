-- ===== src/Client/Tls/Domain.antt =====
-- The domain that a TLS connection is made to, and what it depends on.
use hyperdriver.Base.{
  Bool, true, false, if◌then◌else◌, map_some, Option, ◌≡◌, refl, sym, ap, ◌∙◌, none, some,
  unwrap_or, String,
}
use hyperdriver.Http.{Http, Request}
use hyperdriver.Client.Key.{build_key, folded}
use hyperdriver.Client.Tls.Pooled.{IsExact, same_test}
use hyperdriver.Client.Tls.{
  get_host, tls_domain, get_tls_domain, TlsTransport, AutoTlsTransport, plain, tls, Connect,
  from_plain, from_tls, connect_by, call,
}

by_test :
    (b c : Bool) (x y : Option String)
    → map_some folded x ≡ map_some folded y
    → map_some folded (if b then x else if c then x else none)
      ≡ map_some folded (if b then y else if c then y else none)
by_test true c x y same = same
by_test false true x y same = same
by_test false false x y same = refl

chosen :
    {b b' c c' : Bool} (x y : Option String)
    → b ≡ b'
    → c ≡ c'
    → map_some folded x ≡ map_some folded y
    → map_some folded (if b then x else if c then x else none)
      ≡ map_some folded (if b' then y else if c' then y else none)
chosen {b} {b'} {c} {c'} x y e k same = rw (e, k) (by_test b' c' x y same)

-- Connected alike: both without TLS, or both with TLS to domains that differ in case alone.
abbrev pub Alike : {T Config : Type 0} → Connect T Config → Connect T Config → Type 0
Alike (from_plain t) (from_plain u) = t ≡ u
Alike (from_tls t x) (from_tls u y) = (t ≡ u) × (folded x ≡ folded y)
Alike (from_plain t) (from_tls u y) = ⊥
Alike (from_tls t x) (from_plain u) = ⊥

pub folded-some :
    (x y : String) → map_some folded (some x) ≡ map_some folded (some y) → folded x ≡ folded y
folded-some x y e = ap (unwrap_or (folded x)) e

connect_by-Alike :
    {T Config : Type 0} (a : AutoTlsTransport T Config) (x y : Option String)
    → map_some folded x ≡ map_some folded y
    → Alike (connect_by a x) (connect_by a y)
unfolding connect_by
connect_by-Alike (plain t) x y e = refl
connect_by-Alike (tls t) none none e = refl
connect_by-Alike (tls t) none (some y) e = cc
connect_by-Alike (tls t) (some x) none e = cc
connect_by-Alike (tls t) (some x) (some y) e = (refl, folded-some x y e)

module _ (h : Http) {B : Type 0} where
  pub get_host_of_uri :
      (req : Request h B) → h.get req.headers "host" ≡ none → get_host h req ≡ h.host req.uri
  unfolding get_host
  get_host_of_uri req e = rw e refl

  pub get_host_of_header :
      (req : Request h B) (v x : String)
      → h.get req.headers "host" ≡ some v
      → h.to_str v ≡ some x
      → get_host h req ≡ some x
  unfolding get_host
  get_host_of_header req v x e t = rw (e, t) refl

  -- Requests with schemes of one key and hosts that differ in case alone get domains that differ in
  -- case alone, if both spell the schemes for TLS in lower case.
  pub same_domain :
      (s t : String) (r q : Request h B)
      → h.scheme r.uri ≡ some s
      → h.scheme q.uri ≡ some t
      → IsExact s
      → IsExact t
      → folded s ≡ folded t
      → map_some folded (get_host h r) ≡ map_some folded (get_host h q)
      → map_some folded (get_tls_domain h r) ≡ map_some folded (get_tls_domain h q)
  unfolding get_tls_domain tls_domain
  same_domain s t r q er eq xs xt e k =
      ap (λ o. map_some folded (tls_domain h o r)) er
      ∙ chosen _ _ (same_test "https" s t (xs.https) (xt.https) e)
          (same_test "wss" s t (xs.wss) (xt.wss) e) k
      ∙ sym (ap (λ o. map_some folded (tls_domain h o q)) eq)

  pub key_of_scheme :
      (s : String) (r : Request h B)
      → h.scheme r.uri ≡ some s
      → build_key h r ≡ record { scheme = s; authority = h.authority r.uri }
  unfolding build_key
  key_of_scheme s r e = rw e refl

  module _ {T Config : Type 0} where
    pub same_call :
        (a : AutoTlsTransport T Config) (r q : Request h B)
        → map_some folded (get_tls_domain h r) ≡ map_some folded (get_tls_domain h q)
        → Alike (call h a r) (call h a q)
    unfolding call
    same_call a r q e = connect_by-Alike a _ _ e

    -- An https request is connected with TLS to the host that `get_host` finds.
    pub call_https :
        (t : TlsTransport T Config) (req : Request h B) (x : String)
        → h.scheme req.uri ≡ some "https"
        → get_host h req ≡ some x
        → call h (tls t) req ≡ from_tls t x
    unfolding call get_tls_domain tls_domain connect_by
    call_https t req x e k = rw (e, k) refl
