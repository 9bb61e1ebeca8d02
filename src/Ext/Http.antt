-- ===== src/Ext/Http.antt =====
-- What the JSON-RPC server uses of `hyper` and `jsonrpc_http_server`: the path of a request, and
-- the start of the HTTP server on an address.
use mwixnet.Base.{Bool, Result}
use mwixnet.Ext.Files.{Files}

pub record Http (f : Files) : Type 1 where
  pub Uri : Type 0
  -- `uri == "/v1"`
  pub is_v1 : Uri → Bool
  -- `ServerBuilder::start_http`
  pub StartError : Type 0
  pub start_http : f.SocketAddr → Result StartError (Unit {0})
