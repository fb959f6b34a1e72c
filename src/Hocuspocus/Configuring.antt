-- ===== src/Hocuspocus/Configuring.antt =====
-- hocuspocus.rs and types.rs: the configuration, a new server, and the first steps of a connection.
use hocuspocu_rs.Base.{ℕ, Bool, true, false, List, [], Option, none, some, Str}
use hocuspocu_rs.Client
use hocuspocu_rs.Client.{Client}
use hocuspocu_rs.Debounce
use hocuspocu_rs.DirectConnection.{DirectConnection, new_async}
use hocuspocu_rs.Document.{Document}
use hocuspocu_rs.Hocuspocus.Hooks.{Extension, Ran, hooks, on_configure}
use hocuspocu_rs.Hocuspocus.Hooks as Hooks
use hocuspocu_rs.Hocuspocus.Loading.{Loaded}
use hocuspocu_rs.Hocuspocus.Storing.{Hocuspocus, or_empty}
use hocuspocu_rs.Base.{◌⊎◌, inl, inr}
use hocuspocu_rs.Sink.{Sinks}
use hocuspocu_rs.Types.{Context}
use hocuspocu_rs.Yrs.{Yrs}

pub record Configuration : Type 0 where
  pub name : Option Str
  pub timeout : ℕ
  pub debounce : ℕ
  pub max_debounce : ℕ
  pub quiet : Bool
  pub unload_immediately : Bool
  pub extensions : List Extension

abbrev pub default_configuration : Configuration
default_configuration = record {
  name = none;
  timeout = 60000;
  debounce = 2000;
  max_debounce = 10000;
  quiet = false;
  unload_immediately = true;
  extensions = [];
}

abbrev pub or_default : Option Configuration → Configuration
or_default none = default_configuration
or_default (some config) = config

-- The server keeps what `configure` is given, its extensions sorted, and then runs their hook.
unfoldable pub configure : Configuration → Configuration × Ran
configure configuration = (
  record configuration { extensions = Hooks.configure configuration.extensions },
  hooks on_configure (Hooks.configure configuration.extensions),
)

-- `try_read` gives no configuration while one is being written.
abbrev pub get_timeout : Option Configuration → ℕ
get_timeout (some config) = config.timeout
get_timeout none = 60000

module _ (y : Yrs) where
  -- `docs` and `sinks` are the store that documents and sockets are made in, `now` is the time.
  unfoldable pub new :
      Option Configuration → (ℕ → Document y) → Sinks → ℕ → Configuration × Hocuspocus y
  new configuration docs sinks now =
      let config = or_default configuration in
      (
        config,
        record {
          debounce_ms = config.debounce;
          max_debounce_ms = config.max_debounce;
          last_change_time = λ k. 0;
          documents = [];
          docs = docs;
          unloading_documents = [];
          debouncer = Debounce.new now;
          stores = [];
          sinks = sinks;
          calls = [];
        },
      )

  -- The callback for closed connections is the task of `after_close`; the timeout is that of the
  -- configuration.
  unfoldable pub handle_connection :
      Option Configuration → Str → ℕ → Option Context → ℕ → Hocuspocus y → ℕ × Client y
  handle_connection readable socket_id ws default_context now s = (
    get_timeout readable,
    Client.new y socket_id ws (or_empty default_context) now s.docs s.sinks,
  )

  -- `created` is what `create_document` returned.
  unfoldable pub open_direct_connection :
      Loaded → Option Context → Hocuspocus y → (Str ⊎ DirectConnection) × Hocuspocus y
  open_direct_connection (inl e) context s = (inl e, s)
  open_direct_connection (inr doc) context s =
      let (d, s') = new_async y doc context s in (inr d, s')
