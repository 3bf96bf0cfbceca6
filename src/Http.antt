-- ===== src/Http.antt =====
-- What the client's code uses of the http crate, as an interface: versions, URIs and their parts,
-- header maps, requests. Schemes, authorities, paths, header names and header values stand as their
-- text; names are in lower case, as the crate keeps them. The laws are the crate's documentation of
-- each function.
pub mod Sample
use hyperdriver.Base.{
  ℕ, ◌≡◌, Bool, if◌then◌else◌, Option, none, some, String, str_eq, str_append, Outcome, value,
  panic,
}

-- `http::Version`.
pub data Version : Type 0 where
  http_09 http_10 http_11 http_2 http_3 : Version

-- `http::Method`, told apart as far as the source does.
pub data Method : Type 0 where
  connect : Method
  other : String → Method

pub record Port : Type 0 where
  pub as_str : String
  pub as_u16 : ℕ

-- `http::uri::Parts`.
pub record Parts : Type 0 where
  pub scheme : Option String
  pub authority : Option String
  pub path_and_query : Option String

pub record Http : Type 1 where
  pub Uri : Type 0
  pub scheme : Uri → Option String
  pub authority : Uri → Option String
  pub host : Uri → Option String
  pub port : Uri → Option Port
  pub path_and_query : Uri → Option String
  pub default : Uri
  pub from_parts : Parts → Option Uri
  pub HeaderMap : Type 0
  pub get : HeaderMap → String → Option String
  pub remove : String → HeaderMap → HeaderMap
  pub insert : String → String → HeaderMap → HeaderMap
  pub header_value : String → Option String
  pub to_str : String → Option String
  pub default_scheme : scheme default ≡ none
  pub default_authority : authority default ≡ none
  pub default_path : path_and_query default ≡ some "/"
  pub from_authority :
      (u : Uri) (a : String)
      → authority u ≡ some a
      → (u' : Uri) × (from_parts
            (record { scheme = none; authority = some a; path_and_query = none })
          ≡ some u')
        × (scheme u' ≡ none)
        × (authority u' ≡ some a)
        × (path_and_query u' ≡ none)
  pub from_path :
      (u : Uri) (p : String)
      → path_and_query u ≡ some p
      → (u' : Uri) × (from_parts
            (record { scheme = none; authority = none; path_and_query = some p })
          ≡ some u')
        × (scheme u' ≡ none)
        × (authority u' ≡ none)
        × (path_and_query u' ≡ some p)
  pub get-remove :
      (m : HeaderMap) (n k : String) → get (remove n m) k ≡ (if str_eq n k then none else get m k)
  pub get-insert :
      (m : HeaderMap) (n v k : String)
      → get (insert n v m) k ≡ (if str_eq n k then some v else get m k)
  pub host_value : (u : Uri) (h : String) → host u ≡ some h → header_value h ≡ some h
  pub host_port_value :
      (u : Uri) (h : String) (p : Port)
      → host u ≡ some h
      → port u ≡ some p
      → header_value (str_append h (str_append ":" p.as_str))
        ≡ some (str_append h (str_append ":" p.as_str))

-- `http::Request`.
pub record Request (h : Http) (B : Type 0) : Type 0 where
  pub method : Method
  pub uri : h.Uri
  pub version : Version
  pub headers : h.HeaderMap
  pub body : B

-- `Option::expect` and `Option::unwrap`.
abbrev pub expect {ℓ} : {A : Type ℓ} → Option A → Outcome A
expect none = panic
expect (some a) = value a
