-- ===== src/Client/Dns/Resolves.antt =====
-- The host that is looked up, the port, and the resolver's future.
use Prim.Native.Char.{Char, code}
use text.Mathlib.TextLemmas.{cons-append, nil-append}
use hyperdriver.Base.{
  ℕ, ◌==◌, ◌≡◌, refl, sym, ap, ◌∙◌, ◌⊎◌, inl, inr, false, if◌then◌else◌, Bool-cases, Option, none,
  some, String, str_eq, str_append, ok, err,
}
use hyperdriver.Http.{Http, Port}
use hyperdriver.Io.{IoError, invalid_data}
use hyperdriver.Client.Dns.{
  trim_start, trim_last, trim_end, missing_port, port_of, with_host, get_host_and_port, GaiFuture,
  join_handle, error, on_target, call,
}

-- No character of the text has the code.
abbrev pub Without : ℕ → String → Type 0
Without n String.[] = Unit
Without n (String.◌∷◌ c s) = ((code c == n) ≡ false) × Without n s

trim_start-Without : (n : ℕ) (s : String) → Without n s → trim_start n s ≡ s
unfolding trim_start
trim_start-Without n String.[] w = refl
trim_start-Without n (String.◌∷◌ c s) (h, w) = rw h refl

trim_end-Without : (n : ℕ) (s : String) → Without n s → trim_end n s ≡ s
unfolding trim_end trim_last
trim_end-Without n String.[] w = refl
trim_end-Without n (String.◌∷◌ c String.[]) (h, w) = rw h refl
trim_end-Without n (String.◌∷◌ c (String.◌∷◌ d s)) (h, w) =
    rw (trim_end-Without n (String.◌∷◌ d s) w) refl

trim_last-cons :
    (n : ℕ) (c : Char) (s : String) → Without n (String.◌∷◌ c s) → trim_last n c s ≡ String.◌∷◌ c s
unfolding trim_last
trim_last-cons n c String.[] (h, w) = rw h refl
trim_last-cons n c (String.◌∷◌ d s) w = refl

trim_end-bracket : (s : String) → Without b']' s → trim_end b']' (str_append s "]") ≡ s
unfolding trim_end trim_last
trim_end-bracket String.[] w = refl
trim_end-bracket (String.◌∷◌ c s) w =
    ap (trim_end b']') (cons-append c s "]")
    ∙ ap (trim_last b']' c) (trim_end-bracket s w.1)
    ∙ trim_last-cons b']' c s w

trim_start-bracket :
    (s : String)
    → Without b'[' s
    → trim_start b'[' (str_append "[" (str_append s "]")) ≡ str_append s "]"
unfolding trim_start
trim_start-bracket String.[] w = refl
trim_start-bracket (String.◌∷◌ c s) (h, w) =
    ap (trim_start b'[') (
      cons-append "[" "" (str_append (String.◌∷◌ c s) "]")
      ∙ ap (String.◌∷◌ "[") (nil-append _ ∙ cons-append c s "]"))
    ∙ rw h (sym (cons-append c s "]"))

-- The host as `to_socket_addrs` takes it.
pub trimmed : String → String
trimmed host = trim_end b']' (trim_start b'[' host)

trimmed-plain : (s : String) → Without b'[' s → Without b']' s → trimmed s ≡ s
unfolding trimmed
trimmed-plain s a b = ap (trim_end b']') (trim_start-Without b'[' s a) ∙ trim_end-Without b']' s b

trimmed-bracket :
    (s : String) → Without b'[' s → Without b']' s → trimmed (str_append "[" (str_append s "]")) ≡ s
unfolding trimmed
trimmed-bracket s a b = ap (trim_end b']') (trim_start-bracket s a) ∙ trim_end-bracket s b

trimmed-literal :
    (host s : String)
    → Without b'[' s
    → Without b']' s
    → (host ≡ s) ⊎ (host ≡ str_append "[" (str_append s "]"))
    → trimmed host ≡ s
trimmed-literal host s a b (inl same) = ap trimmed same ∙ trimmed-plain s a b
trimmed-literal host s a b (inr literal) = ap trimmed literal ∙ trimmed-bracket s a b

module _ (h : Http) {Handle : Type 0} (spawn : String → ℕ → Handle) where
  -- The port that is used: the URI's, or else the one of its scheme, if that is http or https.
  unfoldable pub port_in : Option Port → Option String → Option ℕ
  port_in (some p) scheme = some p.as_u16
  port_in none none = none
  port_in none (some s) =
      if str_eq s "http" then some 80 else if str_eq s "https" then some 443 else none

  port_of-cases :
      (o : Option Port) (s : Option String)
      → ((p : ℕ) × (port_in o s ≡ some p) × (port_of h o s ≡ ok p))
        ⊎ ((e : IoError) × (port_in o s ≡ none) × (port_of h o s ≡ err e) × (e.kind ≡ invalid_data))
  unfolding port_of port_in
  port_of-cases (some p) s = inl (p.as_u16, refl, refl)
  port_of-cases none none = inr (_, refl, refl, refl)
  port_of-cases none (some s) = elim (Bool-cases (str_eq s "http")) [
    | inl a ↦ inl (80, rw a refl, rw a refl)
    | inr a ↦ elim (Bool-cases (str_eq s "https")) [
      | inl b ↦ inl (443, rw (a, b) refl, rw (a, b) refl)
      | inr b ↦ inr (missing_port, rw (a, b) refl, rw (a, b) refl, refl)
    ]
  ]

  -- The lookup that `call` starts for a host and a port, or the error that its future holds.
  abbrev pub Looks : Option String → Option ℕ → GaiFuture Handle → Type 0
  Looks (some host) (some port) f =
      (f ≡ join_handle (spawn (trimmed host) port))
      × ((s : String)
          → Without b'[' s
          → Without b']' s
          → (host ≡ s) ⊎ (host ≡ str_append "[" (str_append s "]"))
          → trimmed host ≡ s)
  Looks (some host) none f = (e : IoError) × (f ≡ error (some e)) × (e.kind ≡ invalid_data)
  Looks none port f = (e : IoError) × (f ≡ error (some e)) × (e.kind ≡ invalid_data)

  on_target-Looks :
      (host : Option String) (o : Option Port) (s : Option String)
      → Looks host (port_in o s) (on_target h spawn (with_host h host (port_of h o s)))
  unfolding on_target with_host trimmed
  on_target-Looks none o s = (_, refl, refl)
  on_target-Looks (some host) o s = elim (port_of-cases o s) [
    | inl (p, used, made) ↦
        rw (used, made) (refl, λ t a b literal. trimmed-literal host t a b literal)
    | inr (e, missing, made, kind) ↦ rw (missing, made) (e, refl, kind)
  ]

  -- The resolver looks up the URI's host, an IPv6 literal without its brackets, with the port of the
  -- URI or the default one of http and https; without a host or a port it looks up nothing, and its
  -- future is the error `InvalidData`.
  pub call-Looks :
      (uri : h.Uri) → Looks (h.host uri) (port_in (h.port uri) (h.scheme uri)) (call h spawn uri)
  unfolding call get_host_and_port
  call-Looks uri = on_target-Looks (h.host uri) (h.port uri) (h.scheme uri)
