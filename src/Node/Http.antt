-- ===== src/Node/Http.antt =====
-- `HttpGrinNode` of src/node.rs: the node over JSON-RPC, as a value of `GrinNode`.
use mwixnet.Base.{ℕ, true, false, [], ◌∷◌, List, Option, none, some, Result, ok, map_err, ◌>>=◌}
use mwixnet.Ext.{Crates}
use mwixnet.Ext.Files.{Files}
use mwixnet.Ext.Net.{Net, Method, v2_foreign, get_outputs, get_tip, push_transaction}
use mwixnet.Node.{GrinNode, NodeError, api_comm_error, response_parse_error, decode_response_error}

module _ (x : Crates) (f : Files) (n : Net x f) where
  pub record HttpGrinNode : Type 0 where
    pub node_url : f.SocketAddr
    pub node_api_secret : Option f.Text

  -- `HttpGrinNode::new`
  unfoldable pub new : f.SocketAddr → Option f.Text → HttpGrinNode
  new node_url node_api_secret = record { node_url = node_url; node_api_secret = node_api_secret }

  -- `HttpGrinNode::send_json_request`, at the type that `decode` reads
  unfoldable pub send_json_request :
      {A : Type 0}
      → HttpGrinNode
      → (n.Json → Result x.JsonError A)
      → Method
      → n.Json
      → Result (NodeError x) A
  send_json_request {A = A} node decode method params = do
    let req = n.build_request method params
    res ← map_err api_comm_error (n.post node.node_url v2_foreign node.node_api_secret req)
    map_err response_parse_error (n.into_result A decode res)

  -- the first of the outputs, where there is one
  abbrev pub first_output : List x.OutputPrintable → Option x.OutputPrintable
  first_output [] = none
  first_output (out ∷ _) = some out

  -- `json!([Some(commits), start_height, end_height, include_proof, include_merkle_proof])`
  abbrev pub utxo_params : x.Commitment → n.Json
  utxo_params output_commit = n.json_array (
      n.json_array (n.json_text (f.to_hex (x.commit_bytes output_commit)) ∷ [])
      ∷ n.json_null
      ∷ n.json_null
      ∷ n.json_bool false
      ∷ n.json_bool false
      ∷ [])

  unfoldable pub http_get_utxo :
      HttpGrinNode → x.Commitment → Result (NodeError x) (Option x.OutputPrintable)
  unfolding send_json_request
  http_get_utxo node output_commit = do
    outputs ← send_json_request node n.outputs_from_value get_outputs (utxo_params output_commit)
    ok (first_output outputs)

  unfoldable pub http_get_chain_height : HttpGrinNode → Result (NodeError x) ℕ
  unfolding send_json_request
  http_get_chain_height node = do
    tip_json ← send_json_request node (λ v. ok v) get_tip (n.json_array [])
    map_err decode_response_error (n.tip_from_value (n.index_ok tip_json))

  unfoldable pub http_post_tx : HttpGrinNode → x.Transaction → Result (NodeError x) (Unit {0})
  unfolding send_json_request
  http_post_tx node tx = do
    _ ←
        send_json_request node (λ v. ok v) push_transaction
          (n.json_array (n.json_tx tx ∷ n.json_bool true ∷ []))
    ok tt

  -- `impl GrinNode for HttpGrinNode`
  unfoldable pub http_node : HttpGrinNode → GrinNode x
  unfolding http_get_utxo http_get_chain_height http_post_tx
  http_node node = record {
    get_utxo = http_get_utxo node;
    get_chain_height = http_get_chain_height node;
    post_tx = http_post_tx node;
  }
