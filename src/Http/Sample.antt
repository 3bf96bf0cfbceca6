-- ===== src/Http/Sample.antt =====
-- An instance of the interface: a URI is its parts, and a header map is a function from names.
use hyperdriver.Base.{refl, if◌then◌else◌, Option, none, some, String, str_eq}
use hyperdriver.Http.{Http, Parts, Port}

pub record SampleUri : Type 0 where
  pub parts : Parts
  pub host_name : Option String
  pub port_number : Option Port

abbrev pub sample_http : Http
sample_http = record {
  Uri = SampleUri;
  scheme = λ u. u.parts.scheme;
  authority = λ u. u.parts.authority;
  host = λ u. u.host_name;
  port = λ u. u.port_number;
  path_and_query = λ u. u.parts.path_and_query;
  default = record {
    parts = record { scheme = none; authority = none; path_and_query = some "/" };
    host_name = none;
    port_number = none;
  };
  from_parts = λ p. some (record { parts = p; host_name = p.authority; port_number = none });
  HeaderMap = String → Option String;
  get = λ m k. m k;
  remove = λ n m k. if str_eq n k then none else m k;
  insert = λ n v m k. if str_eq n k then some v else m k;
  header_value = λ s. some s;
  to_str = λ s. some s;
  default_scheme = refl;
  default_authority = refl;
  default_path = refl;
  from_authority = λ u a e. (_, refl, refl, refl, refl);
  from_path = λ u p e. (_, refl, refl, refl, refl);
  get-remove = λ m n k. refl;
  get-insert = λ m n v k. refl;
  host_value = λ u h e. refl;
  host_port_value = λ u h p e k. refl;
}
