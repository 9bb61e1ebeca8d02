-- ===== src/Node/HttpLaws.antt =====
-- What `HttpGrinNode` promises where the node that it asks does its part.
use mwixnet.Base.{
  panic-bind, ok-panic, ◌≡◌, ◌≢◌, refl, sym, ap, ◌∙◌, [], ◌∷◌, List, All, Option, some, Result, ok,
  err, panic, map_err, >>=-eq-ok, ok-injective, some-injective,
}
use mwixnet.Ext.{Crates}
use mwixnet.Ext.Files.{Files}
use mwixnet.Ext.Net.{Net, Method, Endpoint, get_outputs}
use mwixnet.Node.{IsHonest}
use mwixnet.Node.Http.{
  HttpGrinNode, send_json_request, utxo_params, first_output, http_get_utxo, http_get_chain_height,
  http_post_tx, http_node,
}

panic-map_err : {E F A : Type 0} (g : E → F) (r : Result E A) → r ≢ panic → map_err g r ≢ panic
panic-map_err g (ok a) h = λ k. cc k
panic-map_err g (err e) h = λ k. cc k
panic-map_err g panic h = λ k. h refl

module _ (x : Crates) (f : Files) (n : Net x f) where
  -- If every list of outputs that the service answers with for a commitment has outputs of that
  -- commitment only, the node answers for the output that it is asked about.
  pub http_node-IsHonest :
      (node : HttpGrinNode x f n)
      → ((c : x.Commitment) (outs : List x.OutputPrintable)
          → send_json_request x f n node n.outputs_from_value get_outputs (utxo_params x f n c)
            ≡ ok outs
          → All (λ (out : x.OutputPrintable). x.printable_commit out ≡ c) outs)
      → IsHonest x (http_node x f n node)
  unfolding http_node http_get_utxo
  http_node-IsHonest node lists c out e =
      let (outs, eo, e1) =
        >>=-eq-ok
          (send_json_request x f n node n.outputs_from_value get_outputs (utxo_params x f n c)) _
          e in
      go outs (lists c outs eo) (ok-injective _ _ e1)
    where
      go :
          (outs : List x.OutputPrintable)
          → All (λ (o : x.OutputPrintable). x.printable_commit o ≡ c) outs
          → first_output x f n outs ≡ some out
          → x.printable_commit out ≡ c
      go [] h k = absurd (cc k)
      go (o ∷ outs) h k = ap x.printable_commit (sym (some-injective _ _ k)) ∙ h.0

  -- The calls over the network end with a value or an error.
  pub record IsQuiet : Type 1 where
    pub post_quiet :
        (url : f.SocketAddr) (e : Endpoint) (secret : Option f.Text) (r : n.Request)
        → n.post url e secret r ≢ panic
    pub result_quiet :
        (A : Type 0) (decode : n.Json → Result x.JsonError A) (r : n.Response)
        → n.into_result A decode r ≢ panic
    pub tip_quiet : (v : n.Json) → n.tip_from_value v ≢ panic

  send_quiet :
      (Q : IsQuiet) {A : Type 0} (node : HttpGrinNode x f n)
      (decode : n.Json → Result x.JsonError A) (m : Method) (params : n.Json)
      → send_json_request x f n node decode m params ≢ panic
  unfolding send_json_request
  send_quiet Q {A} node decode m params =
      panic-bind _ _ (panic-map_err _ _ (Q.post_quiet _ _ _ _))
        (λ res. panic-map_err _ _ (Q.result_quiet A decode res))

  -- Where the calls over the network do not panic, no call of the node panics, whatever it answers.
  pub http_node_quiet :
      (node : HttpGrinNode x f n) (c : x.Commitment) (tx : x.Transaction)
      → IsQuiet
      → ((http_node x f n node).get_utxo c ≢ panic)
        × ((http_node x f n node).get_chain_height ≢ panic)
        × ((http_node x f n node).post_tx tx ≢ panic)
  unfolding http_node http_get_utxo http_get_chain_height http_post_tx
  http_node_quiet node c tx Q = (
    panic-bind _ _ (send_quiet Q node _ _ _) (λ outs. ok-panic _),
    panic-bind _ _ (send_quiet Q node _ _ _) (λ v. panic-map_err _ _ (Q.tip_quiet _)),
    panic-bind _ _ (send_quiet Q node _ _ _) (λ v. ok-panic _),
  )
