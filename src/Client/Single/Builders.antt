-- ===== src/Client/Single/Builders.antt =====
-- src/client/conn/protocol/mod.rs: the builders for one protocol as services that make connections.
-- hyper's builders are types of their own, `connect` their handshake and `clone` their clone.
use hyperdriver.Base.{fun_ext, ◌≡◌, refl, ap, ◌∙◌, List, [], ◌∷◌, map, Result}
use hyperdriver.Client.Single.{Http1Connection, Http2Connection, call_http1, call_http2}

pub record Http1Builder (Builder : Type 0) : Type 0 where
  pub builder : Builder

pub record Http2Builder (Builder : Type 0) : Type 0 where
  pub builder : Builder

module _ {Builder : Type 0} where
  -- `Http1Builder::new` and its `Default`, with hyper's new builder.
  pub new_http1 : Builder → Http1Builder Builder
  new_http1 hyper_new = record { builder = hyper_new }

  -- `From` for `Http1Builder`.
  pub from_http1 : Builder → Http1Builder Builder
  from_http1 value = record { builder = value }

  -- `Http2Builder::new`, with hyper's builder for the executor.
  pub new_http2 : {Executor : Type 0} → (Executor → Builder) → Executor → Http2Builder Builder
  new_http2 hyper_new executor = record { builder = hyper_new executor }

  -- `From` for `Http2Builder`.
  pub from_http2 : Builder → Http2Builder Builder
  from_http2 value = record { builder = value }

  module _ (clone : Builder → Builder) where
    -- `Clone for Http1Builder` and `Clone for Http2Builder`.
    clone_http1 : Http1Builder Builder → Http1Builder Builder
    clone_http1 b = record { builder = clone b.builder }

    clone_http2 : Http2Builder Builder → Http2Builder Builder
    clone_http2 b = record { builder = clone b.builder }

    module _ {Io Send E : Type 0} (connect : Builder → Io → Result Send E) where
      -- `call` of each, when its future is ready: the builder itself connects, its clone stays.
      connect_http1 :
          Http1Builder Builder → Io → Result (Http1Connection Send) E × Http1Builder Builder
      unfolding clone_http1
      connect_http1 b io = (call_http1 (connect b.builder) io, clone_http1 b)

      connect_http2 :
          Http2Builder Builder → Io → Result (Http2Connection Send) E × Http2Builder Builder
      unfolding clone_http2
      connect_http2 b io = (call_http2 (connect b.builder) io, clone_http2 b)

      -- One stream after the other.
      connect_all1 : Http1Builder Builder → List Io → List (Result (Http1Connection Send) E)
      unfolding connect_http1
      connect_all1 b [] = []
      connect_all1 b (io ∷ ios) = let (r, b') = connect_http1 b io in r ∷ connect_all1 b' ios

      connect_all2 : Http2Builder Builder → List Io → List (Result (Http2Connection Send) E)
      unfolding connect_http2
      connect_all2 b [] = []
      connect_all2 b (io ∷ ios) = let (r, b') = connect_http2 b io in r ∷ connect_all2 b' ios

      -- If hyper's clones connect as the original, every stream is connected as by the first builder.
      connect_all1-each :
          ((b : Builder) (io : Io) → connect (clone b) io ≡ connect b io)
          → (b : Http1Builder Builder) (ios : List Io)
          → connect_all1 b ios ≡ map (call_http1 (connect b.builder)) ios
      unfolding connect_all1 connect_http1 clone_http1
      connect_all1-each alike b [] = refl
      connect_all1-each alike b (io ∷ ios) = ap (◌∷◌ (call_http1 (connect b.builder) io)) (
          connect_all1-each alike (clone_http1 b) ios
          ∙ ap (λ f. map (call_http1 f) ios) (fun_ext (alike b.builder)))

      connect_all2-each :
          ((b : Builder) (io : Io) → connect (clone b) io ≡ connect b io)
          → (b : Http2Builder Builder) (ios : List Io)
          → connect_all2 b ios ≡ map (call_http2 (connect b.builder)) ios
      unfolding connect_all2 connect_http2 clone_http2
      connect_all2-each alike b [] = refl
      connect_all2-each alike b (io ∷ ios) = ap (◌∷◌ (call_http2 (connect b.builder) io)) (
          connect_all2-each alike (clone_http2 b) ios
          ∙ ap (λ f. map (call_http2 f) ios) (fun_ext (alike b.builder)))
