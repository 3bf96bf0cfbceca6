-- ===== src/Client/Key.antt =====
-- src/client/mod.rs, `UriKey`: what the connection pool tells connections apart by.
use Prim.Native.Char.{code}
use hyperdriver.Base.{
  ℕ, ◌+◌, ◌&&◌, ltb, if◌then◌else◌, ◌≡◌, ap, List, [], ◌∷◌, map_some, Option, none, some, unwrap_or,
  String, str_append, Result, ok, err,
}
use hyperdriver.Http.{Http, Request, Version, http_09, http_10, http_11, http_2, http_3}

-- `UriKey`.
pub record UriKey : Type 0 where
  pub scheme : String
  pub authority : Option String

-- chateau's `KeyError`, as the source makes it.
pub data KeyError (Uri : Type 0) : Type 0 where
  invalid_uri : KeyError Uri
  missing_scheme : Uri → KeyError Uri

-- `Display for UriKey`.
pub to_string : UriKey → String
to_string k = str_append k.scheme (str_append "://" (unwrap_or "" k.authority))

-- `From<(Scheme, Authority)> for UriKey`.
pub from_pair : String → String → UriKey
from_pair scheme authority = record { scheme = scheme; authority = some authority }

-- The scheme that `build_key` takes where the URI has none.
pub default_scheme : Version → String
default_scheme http_09 = "http"
default_scheme http_10 = "http"
default_scheme http_11 = "http"
default_scheme http_2 = "https"
default_scheme http_3 = "https"

-- The codes of a text with the ASCII letters in lower case: `eq_ignore_ascii_case`, by which http's
-- `Scheme` and `Authority` are documented to compare, is equality of these.
abbrev pub lower_code : ℕ → ℕ
lower_code n = if ltb 64 n && ltb n 91 then n + 32 else n

unfoldable pub folded : String → List ℕ
folded String.[] = []
folded (String.◌∷◌ c s) = lower_code (code c) ∷ folded s

-- `PartialEq for UriKey`, by which the pool finds its connections: each part ignores case.
pub record SameKey (k l : UriKey) : Type 0 where
  pub scheme : folded k.scheme ≡ folded l.scheme
  pub authority : map_some folded k.authority ≡ map_some folded l.authority

pub SameKey-of_path : {k l : UriKey} → k ≡ l → SameKey k l
SameKey-of_path e = record {
  scheme = ap (λ k. folded k.scheme) e;
  authority = ap (λ k. map_some folded k.authority) e;
}

module _ (h : Http) where
  key_of : h.Uri → Option String → Result UriKey (KeyError h.Uri)
  key_of uri none = err (missing_scheme uri)
  key_of uri (some s) = ok (record { scheme = s; authority = h.authority uri })

  -- `TryFrom<Uri> for UriKey`.
  unfoldable pub try_from : h.Uri → Result UriKey (KeyError h.Uri)
  unfolding key_of
  try_from uri = key_of uri (h.scheme uri)

  -- `FromStr for UriKey`; `parse` is `Uri::from_str`.
  pub from_str : (String → Option h.Uri) → String → Result UriKey (KeyError h.Uri)
  unfolding try_from
  from_str parse s = elim (parse s) [ none ↦ err invalid_uri | some uri ↦ try_from uri ]

  -- `Key::build_key`.
  unfoldable pub build_key : {B : Type 0} → Request h B → UriKey
  unfolding default_scheme
  build_key req = record {
    scheme = unwrap_or (default_scheme req.version) (h.scheme req.uri);
    authority = h.authority req.uri;
  }
