-- ===== src/Client/Builder/Getters.antt =====
-- src/client/builder.rs: what the builder shows of its options, and the conversions of its types.
use hyperdriver.Base.{ℕ, Option, String}
use hyperdriver.Client.Builder.{Builder, with_redirect_policy}

module _ {T P Redirect Layer Config Pool : Type 0} where
  -- `transport`.
  pub transport : Builder T P Redirect Layer Config Pool → T
  transport b = b.transport

  -- `tls`.
  pub tls : Builder T P Redirect Layer Config Pool → Option Config
  tls b = b.tls

  -- `pool`.
  pub pool : Builder T P Redirect Layer Config Pool → Option Pool
  pool b = b.pool

  -- `protocol`.
  pub protocol : Builder T P Redirect Layer Config Pool → P
  protocol b = b.protocol

  -- `user_agent`.
  pub user_agent : Builder T P Redirect Layer Config Pool → Option String
  user_agent b = b.user_agent

  -- `redirect_policy`.
  pub redirect_policy : Builder T P Redirect Layer Config Pool → Option Redirect
  redirect_policy b = b.redirect

  -- `timeout`.
  pub timeout : Builder T P Redirect Layer Config Pool → Option ℕ
  timeout b = b.timeout

  -- `with_standard_redirect_policy`, with tower-http's standard policy.
  pub with_standard_redirect_policy :
      {Standard : Type 0}
      → Standard
      → Builder T P Redirect Layer Config Pool
      → Builder T P Standard Layer Config Pool
  with_standard_redirect_policy standard b = with_redirect_policy standard b

  -- `with_body`, which changes the types of the bodies alone.
  pub with_body : Builder T P Redirect Layer Config Pool → Builder T P Redirect Layer Config Pool
  with_body b = record {
    transport = b.transport;
    protocol = b.protocol;
    layers = b.layers;
    user_agent = b.user_agent;
    redirect = b.redirect;
    timeout = b.timeout;
    tls = b.tls;
    pool = b.pool;
  }
