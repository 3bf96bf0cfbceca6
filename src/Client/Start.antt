-- ===== src/Client/Start.antt =====
-- src/client/mod.rs and src/client/builder.rs: the client that is built by default, and its GET requests.
pub mod Gets
use hyperdriver.Base.{ℕ, Option, String, Outcome, value, ◌>>=◌}
use hyperdriver.Http.{Http, Request, other, http_11}
use hyperdriver.Client.Builder
use hyperdriver.Client.Builder.{Builder, ClientService, build_service}
use hyperdriver.Client.Handle.{Clients, new_from_service, request}

module _ (h : Http) (crate_name : String) {S : Type 0} where
  -- `Builder::build`; `share` is `SharedService::new` of what is composed.
  pub build :
      {T P Redirect Layer Config Pool : Type 0}
      → (ClientService T P Redirect Layer Config Pool → S)
      → Builder T P Redirect Layer Config Pool
      → Clients S
      → Outcome (Clients S)
  unfolding new_from_service
  build share b w = build_service h crate_name b >>= (λ s. value (new_from_service (share s) w))

  -- `Client::new_tcp_http` and `Default for Client`, with the defaults of the builder's parts.
  pub new_tcp_http :
      {T P Redirect Layer Config Pool : Type 0}
      → (ClientService T P Redirect Layer Config Pool → S)
      → T
      → P
      → Redirect
      → Config
      → Pool
      → Clients S
      → Outcome (Clients S)
  unfolding build Builder.default
  new_tcp_http share transport protocol redirect config pool w =
      build share (Builder.default transport protocol redirect config pool) w

module _ (h : Http) (no_headers : h.HeaderMap) {B : Type 0} (empty_body : B) where
  -- `http::Request::get(uri).body(..)`, with the http crate's defaults.
  unfoldable pub get_request : h.Uri → Request h B
  get_request uri = record {
    method = other "GET";
    uri = uri;
    version = http_11;
    headers = no_headers;
    body = empty_body;
  }

  -- `Client::get`, with the future of its request.
  pub get :
      {S F : Type 0}
      → (S → S)
      → (S → Request h B → F)
      → h.Uri
      → ℕ
      → Clients S
      → Option (F × Clients S)
  unfolding get_request
  get clone oneshot uri i w = request clone oneshot (get_request uri) i w
