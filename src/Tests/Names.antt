-- ===== src/Tests/Names.antt =====
-- Names of protocols.
use hyperdriver.Base.{◌≡◌, refl}
use hyperdriver.Http.{http_2}
use hyperdriver.Info.{http, other, from_str, to_string, version_text}
use hyperdriver.Info.Names.{from_str-to_string-http}

from_str-to_string-http_example : from_str (to_string (http http_2)) ≡ other (version_text http_2)
from_str-to_string-http_example = from_str-to_string-http http_2

from_str-h2 : from_str "h2" ≡ http http_2
unfolding from_str
from_str-h2 = refl
