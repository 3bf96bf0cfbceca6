-- ===== src/Client/Dns/First.antt =====
-- src/client/conn/dns.rs, `FirstAddrResolver` over `GaiResolver`: a lookup from its URI to one address.
use hyperdriver.Base.{
  ◌⊎◌, Option, none, str_append, ℕ, zero, suc, ◌≡◌, refl, ap, ◌∙◌, if◌then◌else◌, Bool-cases, inl,
  inr, List, [], ◌∷◌, String, Result, ok, err, Poll, ready, pending, map_ready, Outcome, value,
  panic, some,
}
use hyperdriver.Http.{Http}
use hyperdriver.Io.{IoError, invalid_data, interrupted, other, addr_not_available}
use hyperdriver.Client.Dns.Resolves.{Without, trimmed, port_in, Looks, call-Looks}
use hyperdriver.Client.Dns.{
  get_host_and_port, JoinError, joined, on_handle, poll_join, GaiFuture, join_handle, error, poll,
  on_target, call, first, poll_first,
}

-- A lookup in its thread, as the handle of the thread tells of it.
abbrev pub Lookup : Type 0 → Type 0
Lookup Addr = Result (Result (List Addr) IoError) JoinError

module _ {Addr Ip Handle : Type 0} (ip : Addr → Ip)
    (poll_handle : Handle → Poll (Lookup Addr) × Handle) where
  abbrev pub Polled : Type 0
  Polled = Outcome (Poll (Result Ip IoError)) × GaiFuture Handle

  first_of : Outcome (Poll (Result (List Addr) IoError)) × GaiFuture Handle → Polled
  first_of (value r, f) = let (r', f') = poll_first ip (r, f) in (value r', f')
  first_of (panic, f) = (panic, f)

  -- `FirstAddrFuture::poll` on the resolver's future.
  poll_resolve : GaiFuture Handle → Polled
  unfolding first_of poll poll_join
  poll_resolve f = first_of (poll (poll_join poll_handle) f)

  again :
      (GaiFuture Handle → Outcome (Poll (Result Ip IoError)))
      → Polled
      → Outcome (Poll (Result Ip IoError))
  again more (value (ready r), f) = value (ready r)
  again more (value pending, f) = more f
  again more (panic, f) = panic

  -- A task polls the future, and after `Pending` at most `n` more times.
  unfoldable pub drive : ℕ → GaiFuture Handle → Outcome (Poll (Result Ip IoError))
  unfolding again poll_resolve
  drive zero f = (poll_resolve f).0
  drive (suc n) f = again (drive n) (poll_resolve f)

  wait : (Handle → Poll (Lookup Addr)) → Poll (Lookup Addr) × Handle → Poll (Lookup Addr)
  wait more (ready r, t) = ready r
  wait more (pending, t) = more t

  -- The answer of the thread itself, after as many polls.
  unfoldable pub looked_up : ℕ → Handle → Poll (Lookup Addr)
  unfolding wait
  looked_up zero t = (poll_handle t).0
  looked_up (suc n) t = wait (looked_up n) (poll_handle t)

  -- What a lookup means for who wants one address.
  abbrev pub outcome_of : Lookup Addr → Result Ip IoError
  outcome_of (ok (ok (a ∷ addrs))) = ok (ip a)
  outcome_of (ok (ok [])) = err (record { kind = addr_not_available; message = "no address found" })
  outcome_of (ok (err e)) = err e
  outcome_of (err e) =
      err (record { kind = if e.is_cancelled then interrupted else other; message = e.text })

  join_outcome :
      (r : Lookup Addr)
      → (poll_first ip (ready (joined poll_handle r), tt)).0 ≡ ready (outcome_of r)
  unfolding joined poll_first first
  join_outcome (ok (ok [])) = refl
  join_outcome (ok (ok (a ∷ addrs))) = refl
  join_outcome (ok (err e)) = refl
  join_outcome (err e) = elim (Bool-cases e.is_cancelled) [
    | inl stopped ↦ rw stopped refl
    | inr broken ↦ rw broken refl
  ]

  first-state :
      {F G : Type 0} (r : Poll (Result (List Addr) IoError)) (f : F) (g : G)
      → (poll_first ip (r, f)).0 ≡ (poll_first ip (r, g)).0
  unfolding poll_first
  first-state (ready (ok addrs)) f g = refl
  first-state (ready (err e)) f g = refl
  first-state pending f g = refl

  abbrev from_join : Poll (Lookup Addr) × Handle → Polled
  from_join p = first_of (let (r, t) = on_handle poll_handle p in (value r, join_handle t))

  joined-answer :
      (r : Lookup Addr) (f : GaiFuture Handle)
      → (poll_first ip (ready (joined poll_handle r), f)).0 ≡ ready (outcome_of r)
  joined-answer r f = first-state (ready (joined poll_handle r)) f tt ∙ join_outcome r

  once : (p : Poll (Lookup Addr) × Handle) → (from_join p).0 ≡ value (map_ready outcome_of p.0)
  unfolding on_handle first_of poll_first
  once (ready r, t) = ap value (joined-answer r (join_handle t))
  once (pending, t) = refl

  follows :
      (n : ℕ)
      → ((t : Handle) → drive n (join_handle t) ≡ value (map_ready outcome_of (looked_up n t)))
      → (p : Poll (Lookup Addr) × Handle)
      → again (drive n) (from_join p) ≡ value (map_ready outcome_of (wait (looked_up n) p))
  unfolding on_handle first_of wait again poll_first
  follows n more (ready r, t) = rw (joined-answer r (join_handle t)) refl
  follows n more (pending, t) = more t

  drive-looked_up :
      (n : ℕ) (t : Handle) → drive n (join_handle t) ≡ value (map_ready outcome_of (looked_up n t))
  unfolding drive looked_up
  drive-looked_up zero t = once (poll_handle t)
  drive-looked_up (suc n) t = follows n (drive-looked_up n) (poll_handle t)

  drive-error : (n : ℕ) (e : IoError) → drive n (error (some e)) ≡ value (ready (err e))
  unfolding drive poll_first first_of
  drive-error zero e = refl
  drive-error (suc n) e = refl

  module _ (h : Http) (spawn : String → ℕ → Handle) where
    -- What comes of a URI after `n + 1` polls.
    abbrev pub expected : ℕ → Result (String × ℕ) IoError → Poll (Result Ip IoError)
    expected n (err e) = ready (err e)
    expected n (ok (host, port)) = map_ready outcome_of (looked_up n (spawn host port))

    on_target-expected :
        (n : ℕ) (target : Result (String × ℕ) IoError)
        → drive n (on_target h spawn target) ≡ value (expected n target)
    unfolding on_target
    on_target-expected n (err e) = drive-error n e
    on_target-expected n (ok (host, port)) = drive-looked_up n (spawn host port)

    drive-expected :
        (n : ℕ) (uri : h.Uri)
        → drive n (call h spawn uri) ≡ value (expected n (get_host_and_port h uri))
    unfolding call
    drive-expected n uri = on_target-expected n (get_host_and_port h uri)

    -- The host of a URI is the name, or the name in the brackets of an IPv6 literal, if there is one.
    abbrev pub HostIs : String → Option String → Type 0
    HostIs name none = Unit
    HostIs name (some host) = (host ≡ name) ⊎ (host ≡ str_append "[" (str_append name "]"))

    -- How a lookup ends, by the host of the URI, which is `name`, and the port that is used.
    abbrev pub Ends :
        ℕ → String → Option String → Option ℕ → Outcome (Poll (Result Ip IoError)) → Type 0
    Ends n name (some host) (some port) o =
        o ≡ value (map_ready outcome_of (looked_up n (spawn name port)))
    Ends n name (some host) none o =
        (e : IoError) × (o ≡ value (ready (err e))) × (e.kind ≡ invalid_data)
    Ends n name none port o = (e : IoError) × (o ≡ value (ready (err e))) × (e.kind ≡ invalid_data)

    from_Looks :
        (n : ℕ) (name : String) (host : Option String) (port : Option ℕ) (f : GaiFuture Handle)
        → Without b'[' name
        → Without b']' name
        → HostIs name host
        → Looks h spawn host port f
        → Ends n name host port (drive n f)
    from_Looks n name (some host) (some port) f a b is (e, literal) =
        ap (drive n) e
        ∙ drive-looked_up n (spawn (trimmed host) port)
        ∙ ap (λ t. value (map_ready outcome_of (looked_up n (spawn t port)))) (literal name a b is)
    from_Looks n name (some host) none f a b is (x, e, kind) =
        (x, ap (drive n) e ∙ drive-error n x, kind)
    from_Looks n name none port f a b is (x, e, kind) = (x, ap (drive n) e ∙ drive-error n x, kind)

    -- A lookup for one address never panics while it is polled up to its answer, and it ends in every
    -- way as it should. The host of the URI, if there is one, is `name` or `[name]`, with no bracket in
    -- `name`. A URI without a host, or with neither a port nor one of the schemes http and https, is
    -- refused at the first poll with `InvalidData`, and nothing is looked up. Else `name` is looked up,
    -- with the port of the URI or else 80 for http and 443 for https; the answer comes in the poll in
    -- which the thread ends, and is the first address, the error of the lookup, `AddrNotAvailable` if
    -- there is no address, `Interrupted` if the thread was cancelled, and another error if it broke
    -- down.
    pub drive-Ends :
        (n : ℕ) (uri : h.Uri) (name : String)
        → Without b'[' name
        → Without b']' name
        → HostIs name (h.host uri)
        → Ends n name
            (h.host uri)
            (port_in h spawn (h.port uri) (h.scheme uri))
            (drive n (call h spawn uri))
    drive-Ends n uri name a b is =
        from_Looks n name _ _ (call h spawn uri) a b is (call-Looks h spawn uri)
