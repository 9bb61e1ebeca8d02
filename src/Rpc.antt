-- ===== src/Rpc.antt =====
-- src/rpc.rs: the calls of the JSON-RPC server and the thread that runs the rounds. Both take the
-- server out of one mutex, which a panic under it poisons.
pub mod Loop
pub mod Rounds
pub mod Poison
pub mod Request
pub mod Served
pub mod Listen
pub mod Stopping
pub mod Closing
pub mod Stops
pub mod Hangs
pub mod Ordered
pub mod Between
pub mod Promised
pub mod Schedule
pub mod Restart
pub mod Refused
use mwixnet.Base.{
  ℕ, Bool, true, false, List, Option, Result, ok, err, panic, map_err, if◌then◌else◌,
}
use mwixnet.Base.Exec.{Exec}
use mwixnet.Ext.{Crates}
use mwixnet.Secp.{ComSignature}
use mwixnet.Node.{GrinNode}
use mwixnet.Wallet.{Wallet}
use mwixnet.Onion.{Onion}
use mwixnet.Server.Swap.{SwapError, unknown_error, swap}
use mwixnet.Server.Round.{World, RoundError, execute_round}

module _ (x : Crates) where
  -- `jsonrpc_core::Error` by its code, with the error whose text is its message.
  pub data RpcError : Type 0 where
    internal_error invalid_params : SwapError x → RpcError

  -- `From<SwapError> for Error`
  unfoldable pub from_swap_error : SwapError x → RpcError
  from_swap_error (unknown_error e) = internal_error (unknown_error e)
  from_swap_error e = invalid_params e

  -- What the mutex guards, and whether a panic has poisoned it.
  pub record Shared : Type 0 where
    pub world : World x
    pub poisoned : Bool

  abbrev pub is_panic : {E A : Type 0} → Result E A → Bool
  is_panic panic = true
  is_panic _ = false

  -- `.lock().unwrap()`, then a call of the server
  unfoldable pub locked : {E A : Type 0} → Exec (World x) E A → Exec Shared E A
  locked call shared = elim shared.poisoned [
    | true ↦ (panic, shared)
    | false ↦ let (r, w) = call shared.world in (r, record { world = w; poisoned = is_panic r })
  ]

  -- `ServerImpl::swap` on the world of the rounds.
  abbrev pub server_swap :
      x.SecretKey → GrinNode x → Onion x → ComSignature x → Exec (World x) (SwapError x) (Unit {0})
  server_swap key node onion comsig w =
      let (r, db') = swap x key node onion comsig w.db in (r, record w { db = db' })

  -- `API::swap` of `RPCServer`; the value "success" is the unit.
  unfoldable pub api_swap :
      x.SecretKey → GrinNode x → Onion x → ComSignature x → Exec Shared RpcError (Unit {0})
  unfolding from_swap_error locked
  api_swap key node onion comsig shared =
      let (r, shared') = locked (server_swap key node onion comsig) shared in
      (map_err from_swap_error r, shared')
