-- ===== src/Client/AuthFrame.antt =====
-- A whole authentication frame, and how far the first one for a key is read.
use hocuspocu_rs.Base.{
  ℕ, List, ◌≡◌, ◌⊎◌, inl, inr, true, false, [], Option, none, some, Bytes, Str, get, insert,
  contains_key_of_none, get-insert_self, contains_key-insert_self,
}
use hocuspocu_rs.Base.Outcome.{ok, err}
use hocuspocu_rs.Codec
use hocuspocu_rs.Codec.{Decoder, IoError, read_var_uint, read_var_string, has_content}
use hocuspocu_rs.Common.RoutingKey.{parse_routing_key}
use hocuspocu_rs.Types.{code, auth, Context}
use hocuspocu_rs.Client.{HookPayloadEntry, Hooks, Client, default_config}
use hocuspocu_rs.Client.Handshake.{
  handle_message, handle_queueing_message, ask, with_token, with_payload,
}
use hocuspocu_rs.Yrs.{Yrs}

-- What stands behind the token: the version of the provider, or nothing, or what is no text.
abbrev pub HasVersion : Option Str → Decoder → Type 0
HasVersion (some version) d =
    (has_content d ≡ true) × (behind : Decoder) × (read_var_string d ≡ (ok version, behind))
HasVersion none d =
    (has_content d ≡ false)
    ⊎ ((has_content d ≡ true)
        × (e : IoError) × (behind : Decoder) × (read_var_string d ≡ (err e, behind)))

-- The address, the type Auth, a number, the token, and what there is of a version.
pub record IsAuthFrame (key token : Str) (version : Option Str) (bytes : Bytes) : Type 0 where
  pub past_address : Decoder
  pub past_type : Decoder
  pub past_sub_type : Decoder
  pub past_token : Decoder
  pub sub_type : ℕ
  pub address : read_var_string (Codec.new bytes) ≡ (ok key, past_address)
  pub is_auth : read_var_uint past_address ≡ (ok (code auth), past_type)
  pub has_sub_type : read_var_uint past_type ≡ (ok sub_type, past_sub_type)
  pub has_token : read_var_string past_sub_type ≡ (ok token, past_token)
  pub has_version : HasVersion version past_token

-- What is stored for a key by its first frame.
abbrev pub first_payload : Context → HookPayloadEntry
first_payload context = record {
  connection_config = default_config;
  context = context;
  provider_version = none;
}

-- What the hooks are asked with, once the frame has told the version.
abbrev pub asked_payload : Context → Option Str → HookPayloadEntry
asked_payload context version = record (first_payload context) { provider_version = version }

module _ (y : Yrs) (h : Hooks) (key : Str) where
  -- The socket knows nothing of the key.
  pub record IsNewKey (c : Client y) : Type 0 where
    pub unconnected : get key c.document_connections ≡ none
    pub unnamed : get (parse_routing_key key).0 c.document_connections ≡ none
    pub unqueued : get key c.incoming_message_queue ≡ none
    pub unestablished : get key c.document_connections_established ≡ none

  -- The state after the frames of a new key, which wait in the queue.
  abbrev pub waiting : List Bytes → ℕ → Client y → Client y
  waiting queue now c = record c {
    last_message_received_at = now;
    incoming_message_queue = insert key queue c.incoming_message_queue;
    hook_payloads = insert key (first_payload c.default_context) c.hook_payloads;
  }

  -- The state in which the hooks are asked.
  abbrev pub asking : List Bytes → ℕ → Client y → Client y
  asking queue now c = record (waiting queue now c) {
    document_connections_established = insert key tt c.document_connections_established;
  }

  version_read :
      (token : Str) (version : Option Str) (d : Decoder) (c : Client y)
      → HasVersion version d
      → with_token y h key (parse_routing_key key).0 (ok token, d) c
        ≡ with_payload y h key (parse_routing_key key).0 token version (get key c.hook_payloads) c
  version_read token (some version) d c (more, behind, read) = rw (more, read)
  version_read token none d c (inl ends) = rw ends
  version_read token none d c (inr (more, e, behind, read)) = rw (more, read)

  module _ (token : Str) (version : Option Str) (now : ℕ) (bytes : Bytes) (c : Client y)
      (f : IsAuthFrame key token version bytes) (n : IsNewKey c) where
    pub handle_message-auth :
        handle_message y h now bytes c
        ≡ ask y h key
            (parse_routing_key key).0
            token
            (asked_payload c.default_context version)
            (asking [] now c)
    unfolding handle_message handle_queueing_message code
    handle_message-auth = rw (
      f.address,
      n.unconnected,
      n.unnamed,
      contains_key_of_none key c.incoming_message_queue n.unqueued,
      f.address,
      f.is_auth,
      contains_key_of_none key c.document_connections_established n.unestablished,
      f.has_sub_type,
      f.has_token,
      version_read token version f.past_token _ f.has_version,
      get-insert_self key (first_payload c.default_context) c.hook_payloads,
    )

    pub handle_message-auth_waiting :
        (queue : List Bytes) (before : ℕ)
        → handle_message y h now bytes (waiting queue before c)
          ≡ ask y h key
              (parse_routing_key key).0
              token
              (asked_payload c.default_context version)
              (asking queue now c)
    unfolding handle_message handle_queueing_message code
    handle_message-auth_waiting queue before = rw (
      f.address,
      n.unconnected,
      n.unnamed,
      contains_key-insert_self key queue c.incoming_message_queue,
      f.address,
      f.is_auth,
      contains_key_of_none key c.document_connections_established n.unestablished,
      f.has_sub_type,
      f.has_token,
      version_read token version f.past_token _ f.has_version,
      get-insert_self key (first_payload c.default_context) c.hook_payloads,
    )
