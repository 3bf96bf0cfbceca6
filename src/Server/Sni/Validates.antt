-- ===== src/Server/Sni/Validates.antt =====
-- Which requests the SNI check lets through, and what its mark promises.
use hyperdriver.Base.{
  ◌≡◌, refl, sym, ap, ◌∙◌, ◌≢◌, inl, inr, true, false, Bool-cases, Option, none, some, and_then,
  unwrap_or, String, str_eq, eq_iff, Result, err, map_err,
}
use hyperdriver.Http.{Http, Request}
use hyperdriver.Server.Sni.{
  Authorities, TlsConnectionInfo, invalid_sni, missing_sni, SniMiddlewareError, inner, sni,
  compare_names, handle_tls, request_host, handle,
}

true-ne-false : true ≢ false
true-ne-false e = cc

some-injective : {A : Type 0} {x y : A} → some x ≡ some y → x ≡ y
some-injective {x = x} e = ap (unwrap_or x) e

module _ (h : Http) (a : Authorities) {B A E : Type 0} where
  -- What becomes of a request with the given host, server name (parsed) and TLS information.
  pub data Judged (service : Request h B → Option TlsConnectionInfo → Result A E)
      (req : Request h B)
      : Option String → Option TlsConnectionInfo → Result A (SniMiddlewareError E) → Type 0 where
    not_tls :
        {host : Option String} → Judged service req host none (map_err inner (service req none))
    no_name :
        {host : Option String} (tls : TlsConnectionInfo)
        → and_then a.parse tls.server_name ≡ none
        → Judged service req host (some tls) (err (sni (missing_sni (unwrap_or "-" host))))
    no_host :
        (name : String) (tls : TlsConnectionInfo)
        → and_then a.parse tls.server_name ≡ some name
        → Judged service req none (some tls) (map_err inner (service req (some tls)))
    differs :
        (host name : String) (tls : TlsConnectionInfo)
        → and_then a.parse tls.server_name ≡ some name
        → a.host host ≢ a.host name
        → Judged service req (some host) (some tls) (err (sni (invalid_sni host name)))
    agrees :
        (host name : String) (tls : TlsConnectionInfo)
        → and_then a.parse tls.server_name ≡ some name
        → a.host host ≡ a.host name
        → Judged service req
            (some host)
            (some tls)
            (map_err inner (service req (some (record tls { validated = true }))))

module _ (h : Http) (a : Authorities) where
  marked :
      (host name : Option String) (tls : TlsConnectionInfo)
      → tls.validated ≡ false
      → (compare_names a host name tls).1.validated ≡ true
      → (x y : String) × (host ≡ some x) × (name ≡ some y) × (a.host x ≡ a.host y)
  unfolding compare_names
  marked host none tls new e = absurd (true-ne-false (sym e ∙ new))
  marked none (some name) tls new e = absurd (true-ne-false (sym e ∙ new))
  marked (some host) (some name) tls new e =
      elim (Bool-cases (str_eq (a.host host) (a.host name))) [
        | inl same ↦ (host, name, refl, refl, (eq_iff (a.host host) (a.host name)).0 same)
        | inr other ↦ absurd (true-ne-false (sym (rw other at e) ∙ new))
      ]

  -- The mark is sound: information that was not marked before and is after `handle` belongs to a
  -- request whose host is the host of the server name of its own TLS connection.
  handle-validated :
      {B : Type 0} (req : Request h B) (tls tls' : TlsConnectionInfo)
      → tls.validated ≡ false
      → (handle h a req (some tls)).1 ≡ some tls'
      → tls'.validated ≡ true
      → (x y : String) × (request_host h a req ≡ some x)
        × (and_then a.parse tls.server_name ≡ some y)
        × (a.host x ≡ a.host y)
  unfolding handle handle_tls
  handle-validated req tls tls' new e mark =
      let same : (compare_names a (request_host h a req) (and_then a.parse tls.server_name) tls).1
          ≡ tls' =
        some-injective e in
      marked _ _ tls new (ap (λ t. t.validated) same ∙ mark)
