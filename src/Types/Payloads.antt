-- ===== src/Types/Payloads.antt =====
-- types.rs: what the hooks are called with. A document is its number.
use hocuspocu_rs.Base.{ℕ, List, Option, Bytes, Str, HashMap}
use hocuspocu_rs.Types.{Context, ConnectionConfiguration, TransactionOrigin}
use hocuspocu_rs.Types.Request.{RequestInfo}

pub record OnConfigurePayload : Type 0 where
  pub version : Str

pub record OnListenPayload : Type 0 where
  pub port : ℕ

pub record OnConnectPayload : Type 0 where
  pub context : Context
  pub document_name : Str
  pub request : RequestInfo
  pub socket_id : Str
  pub connection_config : ConnectionConfiguration
  pub provider_version : Option Str

pub record ConnectedPayload : Type 0 where
  pub context : Context
  pub document_name : Str
  pub request : RequestInfo
  pub socket_id : Str
  pub connection_config : ConnectionConfiguration
  pub connection_id : Str
  pub provider_version : Option Str

pub record OnAuthenticatePayload : Type 0 where
  pub context : Context
  pub document_name : Str
  pub request : RequestInfo
  pub socket_id : Str
  pub token : Str
  pub connection_config : ConnectionConfiguration
  pub provider_version : Option Str

pub record OnTokenSyncPayload : Type 0 where
  pub context : Context
  pub document_name : Str
  pub document : ℕ
  pub request : RequestInfo
  pub socket_id : Str
  pub token : Str
  pub connection_config : ConnectionConfiguration
  pub connection_id : Str

pub record OnCreateDocumentPayload : Type 0 where
  pub context : Context
  pub document_name : Str
  pub request : RequestInfo
  pub socket_id : Str
  pub connection_config : ConnectionConfiguration

pub record OnLoadDocumentPayload : Type 0 where
  pub context : Context
  pub document : ℕ
  pub document_name : Str
  pub request : RequestInfo
  pub socket_id : Str
  pub connection_config : ConnectionConfiguration

pub record AfterLoadDocumentPayload : Type 0 where
  pub context : Context
  pub document : ℕ
  pub document_name : Str
  pub request : RequestInfo
  pub socket_id : Str
  pub connection_config : ConnectionConfiguration

pub record BeforeHandleMessagePayload : Type 0 where
  pub clients_count : ℕ
  pub context : Context
  pub document : ℕ
  pub document_name : Str
  pub request : RequestInfo
  pub update : Bytes
  pub socket_id : Str
  pub connection_id : Str

pub record BeforeHandleAwarenessPayload (Value : Type 0) : Type 0 where
  pub clients_count : ℕ
  pub context : Option Context
  pub document : ℕ
  pub document_name : Str
  pub request : RequestInfo
  pub states : List (ℕ × HashMap Value)
  pub socket_id : Str
  pub transaction_origin : Option TransactionOrigin
  pub connection_id : Option Str

pub record BeforeSyncPayload : Type 0 where
  pub clients_count : ℕ
  pub context : Context
  pub document : ℕ
  pub document_name : Str
  pub connection_id : Str
  pub sync_type : ℕ
  pub payload : Bytes

pub record BeforeBroadcastStatelessPayload : Type 0 where
  pub document_name : Str
  pub payload : Str

pub record OnStatelessPayload : Type 0 where
  pub connection_id : Str
  pub document_name : Str
  pub document : ℕ
  pub payload : Str

pub record OnChangePayload : Type 0 where
  pub clients_count : ℕ
  pub context : Context
  pub document : ℕ
  pub document_name : Str
  pub request : RequestInfo
  pub update : Bytes
  pub socket_id : Str
  pub transaction_origin : Option TransactionOrigin
  pub connection_id : Option Str

pub record OnAwarenessUpdatePayload : Type 0 where
  pub document : ℕ
  pub document_name : Str
  pub transaction_origin : Option TransactionOrigin
  pub connection_id : Option Str
  pub added : List ℕ
  pub updated : List ℕ
  pub removed : List ℕ

pub record OnDisconnectPayload : Type 0 where
  pub clients_count : ℕ
  pub context : Context
  pub document : ℕ
  pub document_name : Str
  pub request : RequestInfo
  pub socket_id : Str

pub record OnRequestPayload : Type 0 where
  pub request : RequestInfo

pub record OnUpgradePayload : Type 0 where
  pub request : RequestInfo

abbrev pub OnDestroyPayload : Type 0
OnDestroyPayload = Unit

pub record BeforeUnloadDocumentPayload : Type 0 where
  pub document_name : Str
  pub document : ℕ

pub record AfterUnloadDocumentPayload : Type 0 where
  pub document_name : Str
