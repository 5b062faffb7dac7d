-- ===== src/Http/Message.antt =====
-- runtime/include/opal/http/message.h: requests and responses. A body is the bytes that it holds. A
-- status is the 32 bits of an `int`, in two's complement.
use opal_cpp.Common.{ℕ, Bytes}
use opal_cpp.Http.Headers.{Headers}

pub record HttpRequest : Type 0 where
  pub method : Bytes
  pub target : Bytes
  pub headers : Headers
  pub body : Bytes
  pub peer_address : Bytes

pub record HttpResponse : Type 0 where
  pub status : ℕ
  pub headers : Headers
  pub body : Bytes
  pub operation : Bytes
