-- ===== src/Rpc/Refused.antt =====
-- What a client gets whose request is refused.
use mwixnet.Base.{ℕ, ◌≡◌, refl, ap, ◌∙◌, true, false, Option, some, ok, err}
use mwixnet.Base.Codec.{Bytes}
use mwixnet.Ext.{Crates}
use mwixnet.Ext.Files.{Files}
use mwixnet.Ext.Http.{Http}
use mwixnet.Ext.Laws.{SerLaws, OnionLaws, CommitLaws}
use mwixnet.Types.RoundTrip.{IsPayload}
use mwixnet.Secp.{ComSignature}
use mwixnet.Node.{GrinNode}
use mwixnet.Onion.{Onion}
use mwixnet.Server.Swap.{SwapError, swap}
use mwixnet.Server.Refuse.{
  Refusal, other_count, forged, spent, sealed, cheap, unproved, disproved, swap_refused,
}
use mwixnet.Server.Attempt.{Attempt, expected_for, expected-Refusal}
use mwixnet.Rpc.{Shared, invalid_params, from_swap_error, locked, api_swap}
use mwixnet.Rpc.Listen.{answered, handle}

module _ (x : Crates) (key : x.SecretKey) where
  from_swap_error-Refusal :
      (node : GrinNode x) (onion : Onion x) (comsig : ComSignature x) (e : SwapError x)
      → Refusal x key node onion comsig e
      → from_swap_error x e ≡ invalid_params e
  unfolding from_swap_error
  from_swap_error-Refusal node onion comsig _ (other_count _) = refl
  from_swap_error-Refusal node onion comsig _ (forged _ _ _ _) = refl
  from_swap_error-Refusal node onion comsig _ (spent _ _) = refl
  from_swap_error-Refusal node onion comsig _ (sealed _ _ _ _) = refl
  from_swap_error-Refusal node onion comsig _ (cheap _ _) = refl
  from_swap_error-Refusal node onion comsig _ (unproved _ _ _) = refl
  from_swap_error-Refusal node onion comsig _ (disproved _ _ _ _ _) = refl

  api_swap-err :
      (node : GrinNode x) (onion : Onion x) (comsig : ComSignature x) (s : Shared x)
      (e : SwapError x)
      → s.poisoned ≡ false
      → swap x key node onion comsig s.world.db ≡ (err e, s.world.db)
      → api_swap x key node onion comsig s ≡ (err (from_swap_error x e), s)
  unfolding api_swap locked
  api_swap-err node onion comsig s e good h = rw (good, h) refl

module _ (x : Crates) (f : Files) (h : Http f) (amount_bytes : ℕ → Bytes) (S : SerLaws x)
    (O : OnionLaws x) (C : CommitLaws x amount_bytes) where
  -- Let a client make its onion and signature as it should, with a payload that can be written, and
  -- send its request to the path "/v1" before any panic, and let the node answer what it knows of
  -- the client's output. Where that answer and the client's own data call for an error (the onion
  -- is for more than one server, the output is not unspent, the fee is below the minimum, there is
  -- no range proof, or it is not one of the new output, in this order), the client gets exactly
  -- that error, as one of invalid parameters, and the server stays as it was.
  pub handle_expected :
      (key : x.SecretKey) (uri : h.Uri) (a : Attempt x amount_bytes key) (node : GrinNode x)
      (s : Shared x) (utxo : Option x.OutputPrintable) (e : SwapError x)
      → IsPayload x S a.payload
      → h.is_v1 uri ≡ true
      → s.poisoned ≡ false
      → node.get_utxo a.commit ≡ ok utxo
      → expected_for x amount_bytes a a.behind utxo ≡ some e
      → handle x f h key uri node a.onion a.comsig s ≡ (answered (err (invalid_params e)), s)
  unfolding handle
  handle_expected key uri a node s utxo e valid v1 good u k =
      let r = expected-Refusal x amount_bytes S O C key a node e a.behind utxo valid refl u k in
      let done =
        api_swap-err x key node a.onion a.comsig s e good
          (swap_refused x key node a.onion a.comsig s.world.db e r) in
      rw v1 (
        ap (λ o. (answered o.0, o.1)) done
        ∙ ap (λ u. (answered (err u), s)) (from_swap_error-Refusal x key node a.onion a.comsig e r))
