-- ===== src/Http/Socket/Request.antt =====
-- What the socket server reads of what the socket client writes, and the exchange of both.
use opal_cpp.Http.Dispatch.{RequestHandler, contained}
use opal_cpp.Common.{ℕ, map, Option, Bytes}
use opal_cpp.Http.Message.{HttpRequest, HttpResponse}
use opal_cpp.Http.Http1.Lines.{trimmed}
use opal_cpp.Http.Socket.{client_fields}

-- The request that the handler is given.
abbrev pub arriving : Bytes → ℕ → Bytes → HttpRequest → HttpRequest
arriving host port peer_address request = record {
  method = request.method;
  target = request.target;
  headers = map trimmed (client_fields host port request);
  body = request.body;
  peer_address = peer_address;
}

-- What the guard makes of the answer of a handler to a request that has its trace identity.
abbrev pub guarded_answer : RequestHandler → HttpRequest → HttpResponse
guarded_answer handler identified = (contained identified (handler identified)).0
