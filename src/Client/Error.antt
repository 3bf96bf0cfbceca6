-- ===== src/Client/Error.antt =====
-- src/client/error.rs: the errors of a client, and how those of the pool come to it. `BoxError` is the
-- parameter `Boxed`.
use hyperdriver.Base.{String, str_append}
use hyperdriver.Http.{Method}

-- `Error`; `user` holds hyper's error.
pub data Error (Boxed HyperError : Type 0) : Type 0 where
  connection transport protocol service : Boxed → Error Boxed HyperError
  user : HyperError → Error Boxed HyperError
  invalid_method : Method → Error Boxed HyperError
  unsupported_protocol request_timeout : Error Boxed HyperError

-- chateau's `ConnectionError`, with one constructor for what it may have besides.
pub data ConnectionError (T P S K : Type 0) : Type 0 where
  connecting : T → ConnectionError T P S K
  handshaking : P → ConnectionError T P S K
  service : S → ConnectionError T P S K
  unavailable : ConnectionError T P S K
  key : K → ConnectionError T P S K
  further : ConnectionError T P S K

module _ {T P S K Boxed HyperError : Type 0} (box_t : T → Boxed) (box_p : P → Boxed)
    (box_s : S → Boxed) (box_k : K → Boxed) (box_text : String → Boxed) where
  -- `From<ConnectionError<T, P, S>> for Error`.
  pub from_pool : ConnectionError T P S K → Error Boxed HyperError
  from_pool (connecting e) = transport (box_t e)
  from_pool (handshaking e) = protocol (box_p e)
  from_pool (service e) = connection (box_s e)
  from_pool unavailable = connection (box_text "pool closed, no connection can be made")
  from_pool (key e) = connection (box_k e)
  from_pool further = connection (box_text "Unknown error occured")

module _ {Boxed HyperError : Type 0} (boxed_text : Boxed → String)
    (hyper_text : HyperError → String) (method_text : Method → String) where
  -- `fmt::Display for Error`.
  pub to_string : Error Boxed HyperError → String
  to_string (connection e) = str_append "connection: " (boxed_text e)
  to_string (transport e) = str_append "transport: " (boxed_text e)
  to_string (protocol e) = str_append "protocol: " (boxed_text e)
  to_string (service e) = str_append "serivce: " (boxed_text e)
  to_string (user e) = str_append "user error: " (hyper_text e)
  to_string (invalid_method m) = str_append "invalid method: " (method_text m)
  to_string unsupported_protocol = "unsupported protocol"
  to_string request_timeout = "request timeout"
