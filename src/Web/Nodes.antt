-- ===== src/Web/Nodes.antt =====
-- web/api/cluster.go: the nodes of the service, from the catalog of Consul.
use log_shipper.Base.{
  ℕ, ◌⊎◌, inl, inr, String, Option, none, some, List, map, if◌then◌else◌, str_eq,
}
use log_shipper.Web.{Answer, status_ok, internal_server_error, address_text}

pub record ApiNode : Type 0 where
  pub id : String
  pub address : String
  pub host : String
  pub port : ℕ

-- A service of Consul's catalog.
pub record CatalogService : Type 0 where
  pub service_id : String
  pub service_address : String
  pub service_port : ℕ

show_node : CatalogService → ApiNode
show_node s = record {
  id = s.service_id;
  address = address_text s.service_address s.service_port;
  host = s.service_address;
  port = s.service_port;
}

-- The body of the answer: an empty list of texts without an address of Consul, or the nodes.
pub data NodesBody : Type 0 where
  no_texts : NodesBody
  nodes : List ApiNode → NodesBody

list_nodes : String ⊎ List CatalogService → Answer NodesBody
unfolding show_node
list_nodes (inl err) = internal_server_error err
list_nodes (inr services) = status_ok (nodes (map show_node services))

-- The catalog of Consul, if a client for it can be made; else `GetNodesRoute` panics: `none`.
ask_catalog : String → Option (String → String ⊎ List CatalogService) → Option (Answer NodesBody)
unfolding list_nodes
ask_catalog service_name none = none
ask_catalog service_name (some catalog) = some (list_nodes (catalog service_name))

unfoldable pub get_nodes :
    String → String → Option (String → String ⊎ List CatalogService) → Option (Answer NodesBody)
unfolding ask_catalog
get_nodes consul_addr service_name client =
    if str_eq consul_addr "" then some (status_ok no_texts) else ask_catalog service_name client
