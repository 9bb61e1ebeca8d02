-- ===== src/Server/Reach.antt =====
-- The server as a state machine: requests and rounds, one at a time, as the mutex around the
-- server orders them.
use mwixnet.Base.{◌≢◌, inl, inr}
use mwixnet.Ext.{Crates}
use mwixnet.Ext.Laws.{SerLaws, ValueLaws}
use mwixnet.Ext.DbLaws.{DbLaws}
use mwixnet.Secp.{ComSignature}
use mwixnet.Node.{GrinNode}
use mwixnet.Wallet.{Wallet}
use mwixnet.Onion.{Onion}
use mwixnet.Store.Data.{SwapData, unprocessed}
use mwixnet.Store.View.{Holds}
use mwixnet.Store.Refinement.{save_swap-keeps}
use mwixnet.Server.Swap.{save, swap}
use mwixnet.Server.Round.{World, execute_round}
use mwixnet.Server.Accept.{swap-Handled, swap_of}
use mwixnet.Server.Submit.{swap_of-IsSwap}
use mwixnet.Server.Mark.{IsLedger}
use mwixnet.Server.Ledger.{swap-IsLedger, execute_round-IsLedger}
use mwixnet.Server.Mixed.{execute_round-keeps}

module _ (x : Crates) where
  -- One call of the server whose key is `key`, with the answers of the node and of the wallet
  -- during that call.
  pub data Step (key : x.SecretKey) (w : World x) : World x → Type 0 where
    request :
        (node : GrinNode x) (onion : Onion x) (comsig : ComSignature x)
        → Step key w (record w { db = (swap x key node onion comsig w.db).1 })
    round :
        (wallet : Wallet x) (node : GrinNode x) (offset : x.SecretKey)
        → Step key w (execute_round x wallet node offset w).1

  -- The worlds that calls of the server lead to.
  pub data Reach (key : x.SecretKey) (w : World x) : World x → Type 0 where
    start : Reach key w w
    next : {v u : World x} → Reach key w v → Step key v u → Reach key w u

module _ (x : Crates) (S : SerLaws x) (V : ValueLaws x) (D : DbLaws x) (key : x.SecretKey) where
  -- However a request ends, every swap that the store held it still holds.
  pub swap-keeps :
      (node : GrinNode x) (onion : Onion x) (comsig : ComSignature x) (d : x.Db) (c : x.Commitment)
      (t : SwapData x)
      → Holds x S D d c t
      → Holds x S D (swap x key node onion comsig d).1 c t
  unfolding save
  swap-keeps node onion comsig d c t held = elim (swap-Handled x key node onion comsig d).how [
    | inr (_, same) ↦ rw same held
    | inl (payload, peeled, input, k, o) ↦ rw o (
        save_swap-keeps x S D d (swap_of x payload peeled input)
          (swap_of-IsSwap x S V D key node onion comsig payload peeled input k) c t held)
  ]

  Step-IsLedger : {w v : World x} → Step x key w v → IsLedger x S D w.db → IsLedger x S D v.db
  Step-IsLedger {w = w} (request node onion comsig) I =
      swap-IsLedger x S V D key node onion comsig w.db I
  Step-IsLedger {w = w} (round wallet node offset) I =
      execute_round-IsLedger x S V D wallet node offset w I

  -- Whatever requests and rounds follow each other, and however each of them ends, a store whose
  -- entries are swaps that passed the checks stays one.
  pub Reach-IsLedger : {w v : World x} → Reach x key w v → IsLedger x S D w.db → IsLedger x S D v.db
  Reach-IsLedger start I = I
  Reach-IsLedger (next r s) I = Step-IsLedger s (Reach-IsLedger r I)

  Step-keeps :
      {w v : World x} (c : x.Commitment) (t : SwapData x)
      → Step x key w v
      → IsLedger x S D w.db
      → t.status ≢ unprocessed
      → Holds x S D w.db c t
      → Holds x S D v.db c t
  Step-keeps {w = w} c t (request node onion comsig) I n held =
      swap-keeps node onion comsig w.db c t held
  Step-keeps {w = w} c t (round wallet node offset) I n held =
      execute_round-keeps x S D wallet node offset w c t I.store held n

  -- From a store whose entries are swaps that passed the checks, a swap that the store holds as in
  -- process or as completed is held as it is, whatever requests and rounds follow each other.
  pub Reach-keeps :
      {w v : World x} (c : x.Commitment) (t : SwapData x)
      → Reach x key w v
      → IsLedger x S D w.db
      → t.status ≢ unprocessed
      → Holds x S D w.db c t
      → Holds x S D v.db c t
  Reach-keeps c t start I n held = held
  Reach-keeps c t (next r s) I n held =
      Step-keeps c t s (Reach-IsLedger r I) n (Reach-keeps c t r I n held)
