-- ===== src/Rpc/Served.antt =====
-- An honest client's request on its whole way: through JSON, the API call and the mutex to the
-- store.
use mwixnet.Base.{subst, ℕ, ◌≡◌, refl, sym, ap, ◌∙◌, false, none, ok, map_err}
use mwixnet.Base.Codec.{Bytes}
use mwixnet.Ext.{Crates}
use mwixnet.Ext.Files.{Files}
use mwixnet.Ext.Net.{Net, FormLaws}
use mwixnet.Ext.Laws.{SerLaws, ValueLaws, OnionLaws, CommitLaws}
use mwixnet.Ext.DbLaws.{DbLaws, IsReliable}
use mwixnet.Secp.{ComSignature}
use mwixnet.Secp.RoundTrip.{IsSig}
use mwixnet.Types.RoundTrip.{IsPayload}
use mwixnet.Node.{IsHonest, GrinNode}
use mwixnet.Onion.{Onion}
use mwixnet.Store.Save.{entry}
use mwixnet.Store.View.{Holds}
use mwixnet.Server.Swap.{swap}
use mwixnet.Server.Accept.{swap_of}
use mwixnet.Server.Client.{Request, swap-accepts}
use mwixnet.Rpc.{Shared, from_swap_error, locked, api_swap}
use mwixnet.Rpc.Request.{
  SwapReq, Params, request_serialize, request_deserialize, request_deserialize-request_serialize,
}

module _ (x : Crates) where
  -- The API call on a server that no panic has poisoned ends as the call of the server does, and
  -- leaves the database that it leaves.
  pub api_swap-swap :
      (key : x.SecretKey) (node : GrinNode x) (onion : Onion x) (comsig : ComSignature x)
      (shared : Shared x)
      → shared.poisoned ≡ false
      → ((api_swap x key node onion comsig shared).0
          ≡ map_err (from_swap_error x) (swap x key node onion comsig shared.world.db).0)
        × ((api_swap x key node onion comsig shared).1.world.db
            ≡ (swap x key node onion comsig shared.world.db).1)
  unfolding api_swap locked
  api_swap-swap key node onion comsig shared good = (rw good refl, rw good refl)

  module _ (f : Files) (n : Net x f) (F : FormLaws x f n) (amount_bytes : ℕ → Bytes) (S : SerLaws x)
      (V : ValueLaws x) (O : OnionLaws x) (C : CommitLaws x amount_bytes) (D : DbLaws x) where
    -- Let an honest client, with a valid payload and valid keys in its signature, serialize its
    -- request, and let the server deserialize it and call the API, on a reliable database with no
    -- entry for the client's output, with a node that answers for the output that it is asked
    -- about, and before any panic. Then nothing fails on the way, the call succeeds, and the store
    -- then holds, under the client's output, a swap of the client's payload, for the output that
    -- the client made the range proof for.
    pub api_swap-Request :
        (key : x.SecretKey) (node : GrinNode x) (r : Request x amount_bytes key node)
        (shared : Shared x)
        → IsPayload x S r.payload
        → IsSig x S r.comsig
        → IsReliable x
        → IsHonest x node
        → shared.poisoned ≡ false
        → entry x S D shared.world.db r.commit ≡ none
        → (params : Params x f n) × (req : SwapReq x f n) × (request_serialize x f n
              (record { onion = r.onion; comsig = r.comsig })
            ≡ ok params)
          × (request_deserialize x f n params ≡ ok req)
          × ((api_swap x key node req.onion req.comsig shared).0 ≡ ok tt)
          × (peeled : Onion x) × (input : x.Input) × (peeled.commit ≡ r.output)
          × Holds x S D
              (api_swap x key node req.onion req.comsig shared).1.world.db
              r.commit
              (swap_of x r.payload peeled input)
    api_swap-Request key node r shared valid sig R honest good free =
        let req : SwapReq x f n = record { onion = r.onion; comsig = r.comsig } in
        let (params, es, ed) = request_deserialize-request_serialize x f n F S req sig in
        let (done, peeled, input, own, _, held) =
          swap-accepts x amount_bytes S V O C D key node r valid shared.world.db R honest free in
        let (outcome, left) = api_swap-swap key node r.onion r.comsig shared good in
        (
          params,
          req,
          es,
          ed,
          outcome ∙ ap (map_err (from_swap_error x)) done,
          peeled,
          input,
          own,
          subst (λ d. Holds x S D d r.commit (swap_of x r.payload peeled input)) (sym left) held,
        )
