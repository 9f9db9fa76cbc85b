-- ===== src/Api/Hub.antt =====
-- internal/domain/api/ws_hub.go: the WebSocket hub; and extractRunID, agentReport and agentLogBatch of
-- internal/domain/api/server.go, as far as they send to it. A client is what the hub keeps of it. The
-- tenant of a run is looked up in the database: a parameter.
pub mod Isolated
use hatchet_workflow.Base.{
  ℕ, zero, suc, ◌-◌, String, Bool, true, false, not, ◌&&◌, ◌||◌, List, [], ◌∷◌, map, length, keep,
  Option, none, some, if◌then◌else◌, ◌==◌, leb, remove_at,
}
use hatchet_workflow.Base.Text.{join}
use hatchet_workflow.Agent.Poll.{Report}

-- wsMessage, its payload as a text
pub record WsMessage : Type 0 where
  pub type : String
  pub run_id : String
  pub node_id : String
  pub tenant_id : String
  pub payload : String

-- wsClient; `conn` tells connections apart.
pub record WsClient : Type 0 where
  pub conn : ℕ
  pub filter_run_id : String
  pub tenant_id : String

-- Do two texts that are both there differ?
unfoldable pub conflict : String → String → Bool
conflict a b = not (a == "") && (not (b == "") && not (a == b))

-- broadcast: the clients that a message is sent to
unfoldable pub broadcast : WsMessage → List WsClient → List WsClient
unfolding conflict
broadcast msg clients =
    keep
      (λ (c : WsClient).
        not (conflict c.tenant_id msg.tenant_id) && not (conflict c.filter_run_id msg.run_id))
      clients

-- strings.Split(s, "-")
unfoldable pub is_dash : String → Bool
is_dash s = s == "-"

unfoldable pub prepend : String → List String → List String
prepend c [] = c ∷ []
prepend c (part ∷ parts) = join c part ∷ parts

unfoldable pub split : String → List String
unfolding is_dash prepend
split String.[] = String.[] ∷ []
split (String.◌∷◌ c s) =
    let parts = split s in
    if is_dash (String.◌∷◌ c String.[])
    then String.[] ∷ parts
    else prepend (String.◌∷◌ c String.[]) parts

-- strings.Join(parts, "-")
unfoldable pub join_parts : List String → String
join_parts [] = ""
join_parts (part ∷ []) = part
join_parts (part ∷ next ∷ parts) = join part (join "-" (join_parts (next ∷ parts)))

-- parts[:n]
unfoldable pub take : ℕ → List String → List String
take n [] = []
take zero (part ∷ parts) = []
take (suc n) (part ∷ parts) = part ∷ take n parts

-- extractRunID
unfoldable pub extract_run_id : String → String
unfolding split join_parts take
extract_run_id machine_id =
    let parts = split machine_id in
    if leb 3 (length parts) then join_parts (take (length parts - 2) parts) else machine_id

-- agentReport: the message that it sends to the hub; `encode` makes the text of a report.
unfoldable pub report_message : (encode : Report → String) → Report → WsMessage
report_message encode r = record {
  type = "report";
  run_id = "";
  node_id = "";
  tenant_id = "";
  payload = encode r;
}

-- agentLogBatch: the message of one line
unfoldable pub log_message : (tenant_of : String → String) (machine_id line : String) → WsMessage
unfolding extract_run_id
log_message tenant_of machine_id line =
    let run_id = extract_run_id machine_id in
    record {
      type = "agent_log";
      run_id = run_id;
      node_id = "";
      tenant_id = tenant_of run_id;
      payload = line;
    }
