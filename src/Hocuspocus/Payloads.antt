-- ===== src/Hocuspocus/Payloads.antt =====
-- What hocuspocus.rs and client_connection.rs call the hooks with: of a document's change, its load and
-- its end, and of a socket's client.
use hocuspocu_rs.Base.{ℕ, [], Option, none, some, Bytes, Str}
use hocuspocu_rs.Client.{HookPayloadEntry}
use hocuspocu_rs.Connection.{Connection}
use hocuspocu_rs.Document
use hocuspocu_rs.Hocuspocus.Storing.{Hocuspocus, context_of, or_empty}
use hocuspocu_rs.Types.{Context, ConnectionConfiguration, TransactionOrigin, connection}
use hocuspocu_rs.Types.Payloads.{
  OnConnectPayload, OnAuthenticatePayload, ConnectedPayload, OnTokenSyncPayload,
  OnCreateDocumentPayload, OnLoadDocumentPayload, AfterLoadDocumentPayload,
  BeforeHandleMessagePayload, BeforeSyncPayload, OnChangePayload, OnDisconnectPayload,
  BeforeUnloadDocumentPayload, AfterUnloadDocumentPayload,
}
use hocuspocu_rs.Types.Request.{RequestInfo}
use hocuspocu_rs.Yrs.{Yrs}

-- `RequestInfo::default()`.
abbrev pub default_request : RequestInfo
default_request = record { headers = []; parameters = []; url = [] }

abbrev pub connection_of : Option TransactionOrigin → Option Str
connection_of (some (connection id)) = some id
connection_of _ = none

-- A load, by the name, and for the request that asks for it.
module _ (name : Str) (request : RequestInfo) (socket_id : Str) (config : ConnectionConfiguration)
    (context : Option Context) where
  unfoldable pub create_payload : OnCreateDocumentPayload
  create_payload = record {
    context = or_empty context;
    document_name = name;
    request = request;
    socket_id = socket_id;
    connection_config = config;
  }

  unfoldable pub load_payload : ℕ → OnLoadDocumentPayload
  load_payload document = record {
    context = or_empty context;
    document = document;
    document_name = name;
    request = request;
    socket_id = socket_id;
    connection_config = config;
  }

  unfoldable pub after_load_payload : ℕ → AfterLoadDocumentPayload
  after_load_payload document = record {
    context = or_empty context;
    document = document;
    document_name = name;
    request = request;
    socket_id = socket_id;
    connection_config = config;
  }

module _ (y : Yrs) (s : Hocuspocus y) where
  abbrev clients_count : ℕ → ℕ
  clients_count doc = Document.get_connections_count y (s.docs doc)

  unfoldable pub change_payload : ℕ → Option TransactionOrigin → Bytes → OnChangePayload
  change_payload doc origin update = record {
    clients_count = clients_count doc;
    context = context_of origin;
    document = doc;
    document_name = (s.docs doc).name;
    request = default_request;
    update = update;
    socket_id = [];
    transaction_origin = origin;
    connection_id = connection_of origin;
  }

  unfoldable pub before_payload : ℕ → BeforeUnloadDocumentPayload
  before_payload doc = record { document_name = (s.docs doc).name; document = doc }

  unfoldable pub after_payload : ℕ → AfterUnloadDocumentPayload
  after_payload doc = record { document_name = (s.docs doc).name }

  -- The task behind a closed connection of a socket.
  unfoldable pub disconnect_payload : ℕ → RequestInfo → Connection → OnDisconnectPayload
  disconnect_payload doc request conn = record {
    clients_count = clients_count doc;
    context = conn.context;
    document = doc;
    document_name = (s.docs doc).name;
    request = request;
    socket_id = conn.socket_id;
  }

  -- The callbacks of a connection, with what was kept of its client.
  module _ (request : RequestInfo) (socket_id : Str) (p : HookPayloadEntry) (doc : ℕ) where
    unfoldable pub message_payload : Str → Bytes → BeforeHandleMessagePayload
    message_payload conn_id update = record {
      clients_count = clients_count doc;
      context = p.context;
      document = doc;
      document_name = (s.docs doc).name;
      request = request;
      update = update;
      socket_id = socket_id;
      connection_id = conn_id;
    }

    unfoldable pub sync_payload : Str → ℕ → Bytes → BeforeSyncPayload
    sync_payload conn_id sync_type payload = record {
      clients_count = clients_count doc;
      context = p.context;
      document = doc;
      document_name = (s.docs doc).name;
      connection_id = conn_id;
      sync_type = sync_type;
      payload = payload;
    }

-- The client of a socket, with what is kept of it under its key.
module _ (document_name : Str) (request : RequestInfo) (socket_id : Str)
    (p : HookPayloadEntry) where
  unfoldable pub on_connect_payload : OnConnectPayload
  on_connect_payload = record {
    context = p.context;
    document_name = document_name;
    request = request;
    socket_id = socket_id;
    connection_config = p.connection_config;
    provider_version = p.provider_version;
  }

  unfoldable pub on_auth_payload : Str → OnAuthenticatePayload
  on_auth_payload token = record {
    context = p.context;
    document_name = document_name;
    request = request;
    socket_id = socket_id;
    token = token;
    connection_config = p.connection_config;
    provider_version = p.provider_version;
  }

  unfoldable pub connected_payload : Str → ConnectedPayload
  connected_payload conn_id = record {
    context = p.context;
    document_name = document_name;
    request = request;
    socket_id = socket_id;
    connection_config = p.connection_config;
    connection_id = conn_id;
    provider_version = p.provider_version;
  }

  unfoldable pub token_payload : ℕ → Str → Str → OnTokenSyncPayload
  token_payload document conn_id token = record {
    context = p.context;
    document_name = document_name;
    document = document;
    request = request;
    socket_id = socket_id;
    token = token;
    connection_config = p.connection_config;
    connection_id = conn_id;
  }
