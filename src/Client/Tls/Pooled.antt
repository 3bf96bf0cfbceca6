-- ===== src/Client/Tls/Pooled.antt =====
-- The key of the pool and the use of TLS: what a pooled connection may be used for.
use hyperdriver.Base.{
  Bool-cases, inl, inr, eq_iff, ◌&&◌, ◌≡◌, refl, sym, ap, ◌∙◌, Bool, true, false, if◌then◌else◌,
  ◌||◌, Option, none, some, is_some, or_else, String, str_eq,
}
use hyperdriver.Http.{Http, Request, http_2}
use hyperdriver.Client.Key.{build_key, folded, SameKey}
use hyperdriver.Client.Tls.{
  get_host, tls_domain, get_tls_domain, AutoTlsTransport, new, plain, tls, with_tls,
  with_optional_tls, into_inner, into_parts, tls_config, Connect, from_plain, from_tls, connect_by,
  call,
}

-- The schemes for TLS are spelt in lower case: http makes `https` of every spelling of it itself, and
-- keeps the others as they were written.
pub record IsExact (s : String) : Type 0 where
  pub https : folded s ≡ folded "https" → s ≡ "https"
  pub wss : folded s ≡ folded "wss" → s ≡ "wss"

pub same_test :
    (name s t : String)
    → (folded s ≡ folded name → s ≡ name)
    → (folded t ≡ folded name → t ≡ name)
    → folded s ≡ folded t
    → str_eq s name ≡ str_eq t name
same_test name s t xs xt e = elim (Bool-cases (str_eq s name)) [
  | inl a ↦ a ∙ sym ((eq_iff t name).1 (xt (sym e ∙ ap folded ((eq_iff s name).0 a))))
  | inr a ↦ elim (Bool-cases (str_eq t name)) [
    | inl b ↦ let k = (eq_iff s name).1 (xs (e ∙ ap folded ((eq_iff t name).0 b))) in cc
    | inr b ↦ a ∙ sym b
  ]
]

-- A transport keeps its connector when TLS is set or replaced, and has the newest configuration.
pub into_parts-with_optional_tls :
    {T Config : Type 0} (c : Option Config) (a : AutoTlsTransport T Config)
    → into_parts (with_optional_tls c a) ≡ (into_inner a, or_else c (tls_config a))
unfolding into_parts with_optional_tls with_tls into_inner tls_config
into_parts-with_optional_tls none (plain t) = refl
into_parts-with_optional_tls none (tls t) = refl
into_parts-with_optional_tls (some c) (plain t) = refl
into_parts-with_optional_tls (some c) (tls t) = refl

pub into_parts-new :
    {T Config : Type 0} (c : Option Config) (t : T)
    → into_parts (with_optional_tls c (new t)) ≡ (t, c)
unfolding into_parts with_optional_tls with_tls new
into_parts-new none t = refl
into_parts-new (some c) t = refl

module _ {T Config : Type 0} where
  abbrev pub is_tls : Connect T Config → Bool
  is_tls (from_plain t) = false
  is_tls (from_tls t domain) = true

  connect_by-is_tls :
      (a : AutoTlsTransport T Config) (x y : Option String)
      → is_some x ≡ is_some y
      → is_tls (connect_by a x) ≡ is_tls (connect_by a y)
  unfolding connect_by
  connect_by-is_tls (plain t) x y e = refl
  connect_by-is_tls (tls t) none none e = refl
  connect_by-is_tls (tls t) none (some y) e = cc
  connect_by-is_tls (tls t) (some x) none e = cc
  connect_by-is_tls (tls t) (some x) (some y) e = refl

domain_is_tls :
    {T Config : Type 0} (c : Option Config) (t : T) (domain : Option String)
    → is_tls (connect_by (with_optional_tls c (new t)) domain) ≡ (is_some c && is_some domain)
unfolding connect_by with_optional_tls with_tls new
domain_is_tls none t domain = refl
domain_is_tls (some c) t none = refl
domain_is_tls (some c) t (some domain) = refl

if_self : (b : Bool) → (if b then true else false) ≡ b
if_self true = refl
if_self false = refl

secure : String → Bool
secure s = str_eq s "https" || str_eq s "wss"

has_domain :
    (b c : Bool) (host : Option String)
    → is_some (if b then host else if c then host else none)
      ≡ (if b || c then is_some host else false)
has_domain true true host = refl
has_domain true false host = refl
has_domain false true host = refl
has_domain false false host = refl

module _ (h : Http) {B : Type 0} where
  domain_of :
      (o : Option String) (s : String) (req : Request h B)
      → o ≡ some s
      → is_some (get_host h req) ≡ true
      → is_some (tls_domain h o req) ≡ secure s
  unfolding tls_domain secure
  domain_of o s req e k = rw e (
      has_domain (str_eq s "https") (str_eq s "wss") (get_host h req)
      ∙ ap (λ b. if str_eq s "https" || str_eq s "wss" then b else false) k
      ∙ if_self (str_eq s "https" || str_eq s "wss"))

  key_scheme : (r : Request h B) (s : String) → h.scheme r.uri ≡ some s → (build_key h r).scheme ≡ s
  unfolding build_key
  key_scheme r s e = rw e refl

  pub same_scheme :
      (r q : Request h B) (s t : String)
      → h.scheme r.uri ≡ some s
      → h.scheme q.uri ≡ some t
      → SameKey (build_key h r) (build_key h q)
      → folded s ≡ folded t
  same_scheme r q s t er eq key =
      sym (ap folded (key_scheme r s er)) ∙ key.scheme ∙ ap folded (key_scheme q t eq)

  -- Requests with a scheme and a host that the pool cannot tell apart are connected alike, if they
  -- spell the schemes for TLS in lower case: both with TLS or both without.
  pub call-is_tls :
      {T Config : Type 0} (a : AutoTlsTransport T Config) (r q : Request h B) (s t : String)
      → h.scheme r.uri ≡ some s
      → h.scheme q.uri ≡ some t
      → is_some (get_host h r) ≡ true
      → is_some (get_host h q) ≡ true
      → IsExact s
      → IsExact t
      → SameKey (build_key h r) (build_key h q)
      → is_tls (call h a r) ≡ is_tls (call h a q)
  unfolding call get_tls_domain build_key secure
  call-is_tls a r q s t er eq hr hq xs xt key =
      let e = same_scheme r q s t er eq key in
      let same : secure s ≡ secure t =
        ap (λ b. b || str_eq s "wss") (same_test "https" s t xs.https xt.https e)
        ∙ ap (λ b. str_eq t "https" || b) (same_test "wss" s t xs.wss xt.wss e) in
      connect_by-is_tls a _ _ (domain_of _ s r er hr ∙ same ∙ sym (domain_of _ t q eq hq))

  key_without_scheme :
      (req : Request h B)
      → h.scheme req.uri ≡ none
      → req.version ≡ http_2
      → build_key h req ≡ record { scheme = "https"; authority = h.authority req.uri }
  unfolding build_key
  key_without_scheme req e k = rw (e, k) refl

  -- A request without a scheme that asks for HTTP/2 gets the key of https requests to its authority,
  -- and yet it is connected without TLS, whatever the transport: a later https request with that
  -- key is one that the pool may give this connection.
  pub call_without_scheme :
      {T Config : Type 0} (a : AutoTlsTransport T Config) (req : Request h B)
      → h.scheme req.uri ≡ none
      → req.version ≡ http_2
      → (build_key h req ≡ record { scheme = "https"; authority = h.authority req.uri })
        × (call h a req ≡ from_plain (into_inner a))
  unfolding call get_tls_domain tls_domain connect_by into_inner build_key
  call_without_scheme (plain t) req e k = (key_without_scheme req e k, refl)
  call_without_scheme (tls t) req e k = (key_without_scheme req e k, rw e refl)

  -- A transport that is built with an optional TLS configuration connects with TLS exactly if there
  -- is a configuration and the request has a domain for it.
  pub call-with_optional_tls :
      {T Config : Type 0} (c : Option Config) (t : T) (req : Request h B)
      → is_tls (call h (with_optional_tls c (new t)) req)
        ≡ (is_some c && is_some (get_tls_domain h req))
  unfolding call
  call-with_optional_tls c t req = domain_is_tls c t (get_tls_domain h req)
