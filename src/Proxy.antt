-- ===== src/Proxy.antt =====
-- Assignment1/starter_code/proxy_parse.h: a parsed request, and the headers it holds. A string is the
-- list of its characters, none of them zero.
pub mod Headers
pub mod RequestLine
pub mod Parse
pub mod Relay
mod Tests
use computer_networks.Prelude.{ℕ, List, Option, Bytes}

abbrev pub String : Type 0
String = Bytes

-- `struct ParsedHeader`. The key of a removed header is NULL; its value is then freed or NULL.
pub record ParsedHeader : Type 0 where
  pub key : Option String
  pub keylen : ℕ
  pub value : Option String
  pub valuelen : ℕ

-- `struct ParsedRequest`. `headers` is the part of the array that is in use, so `headersused` is its
-- length; the array has room for `headerslen` headers.
pub record ParsedRequest : Type 0 where
  pub method : Option String
  pub protocol : Option String
  pub host : Option String
  pub port : Option String
  pub path : Option String
  pub version : Option String
  pub buf : Option String
  pub buflen : ℕ
  pub headers : List ParsedHeader
  pub headerslen : ℕ
