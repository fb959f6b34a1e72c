-- ===== src/Common/Awareness.antt =====
-- hocuspocu-rs-common/src/awareness_states.rs and skip_further_hooks_error.rs.
use hocuspocu_rs.Base.{ℕ, List, ◌++◌, map, Option, none, some, Str, text, HashMap}

-- `Value` is that of serde_json.
module _ (Value : Type 0) where
  abbrev pub AwarenessState : Type 0
  AwarenessState = HashMap Value

  pub record ClientAwarenessState : Type 0 where
    pub client_id : ℕ
    pub state : AwarenessState

  -- The states of a map from clients, as its entries come.
  unfoldable pub awareness_states_to_array : List (ℕ × AwarenessState) → List ClientAwarenessState
  awareness_states_to_array states = map (λ s. record { client_id = s.0; state = s.1 }) states

pub record SkipFurtherHooksError : Type 0 where
  pub message : Str

abbrev pub message_or_default : Option Str → Str
message_or_default none = text "Further hooks skipped"
message_or_default (some message) = message

unfoldable pub new : Option Str → SkipFurtherHooksError
new message = record { message = message_or_default message }

unfoldable pub fmt : SkipFurtherHooksError → Str
fmt e = text "SkipFurtherHooksError: " ++ e.message
