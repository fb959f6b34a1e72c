-- ===== src/Server/Listening.antt =====
-- server.rs: the configuration of a server, and how it listens for sockets.
use hocuspocu_rs.Base.{
  ℕ, zero, suc, ◌+◌, ◌/◌, ◌%◌, ◌*◌, ◌-◌, ◌^◌, ◌<◌, ◌≡◌, ◌∙◌, refl, ap, Bool, true, false, ◌&&◌,
  List, [], ◌∷◌, ◌++◌, map, Option, none, some, Str, Bytes, text, HashMap, get, insert, collect,
  last_of, get-collect, leb, ltb, if◌then◌else◌, All, arith, Bool-cases, inl, inr, Bool-cases, inl,
  inr,
}
use hocuspocu_rs.Hocuspocus.Configuring.{Configuration, default_configuration}
use hocuspocu_rs.Hocuspocus.Hooks.{Ran, hooks, on_listen}
use hocuspocu_rs.Types.Request.{RequestInfo, get_parameters, or_else-none}

pub record ServerConfiguration : Type 0 where
  pub port : ℕ
  pub address : Str
  pub stop_on_signals : Bool
  pub config : Configuration

abbrev pub default_server_configuration : ServerConfiguration
default_server_configuration = record {
  port = 80;
  address = text "0.0.0.0";
  stop_on_signals = true;
  config = default_configuration;
}

abbrev pub or_default_server : Option ServerConfiguration → ServerConfiguration
or_default_server none = default_server_configuration
or_default_server (some config) = config

-- What the server of documents was made with, and what the listening server keeps for itself.
pub record Server : Type 0 where
  pub hocuspocus : Configuration
  pub configuration : ServerConfiguration

unfoldable pub with_config : ServerConfiguration → Server
with_config config = record {
  hocuspocus = config.config;
  configuration = record config { config = default_configuration };
}

unfoldable pub new : Option ServerConfiguration → Server
new configuration =
    let config = or_default_server configuration in
    record {
      hocuspocus = config.config;
      configuration = record {
        port = config.port;
        address = config.address;
        stop_on_signals = config.stop_on_signals;
        config = default_configuration;
      };
    }

-- The decimal digits of a port, which has at most five.
pub digits : ℕ → ℕ → Str → Str
digits zero n behind = behind
digits (suc fuel) n behind =
    let rest = digits fuel (n / 10) ((48 + n % 10) ∷ behind) in
    if ltb n 10 then (48 + n % 10) ∷ behind else rest

-- The number that digits stand for, behind those that were read.
value : ℕ → Str → ℕ
value n [] = n
value n (d ∷ ds) = value (n * 10 + (d - 48)) ds

digits-value :
    (fuel n : ℕ) (behind : Str) → n < 10 ^ fuel → value 0 (digits fuel n behind) ≡ value n behind
unfolding digits value
digits-value zero n behind lt = let none_left : n ≡ 0 = omega arith in rw none_left refl
digits-value (suc fuel) n behind lt =
    let last : n / 10 * 10 + (48 + n % 10 - 48) ≡ n = omega arith in
    elim (Bool-cases (ltb n 10)) [
      | inl small ↦
          let own : 0 * 10 + (48 + n % 10 - 48) ≡ n = ground arith in
          rw small (ap (λ k. value k behind) own)
      | inr large ↦
          let few : n / 10 < 10 ^ fuel = omega arith in
          rw large (
            digits-value fuel (n / 10) ((48 + n % 10) ∷ behind) few ∙ ap (λ k. value k behind) last)
    ]

unfoldable pub url : Server → Str
unfolding digits
url s = s.configuration.address ++ (58 ∷ digits 5 s.configuration.port [])

unfoldable pub websocket_url : Server → Str
websocket_url s = text "ws://" ++ url s

unfoldable pub http_url : Server → Str
http_url s = text "http://" ++ url s

abbrev pub with_port : Option ℕ → Server → Server
with_port none s = s
with_port (some port) s = record s { configuration = record (s.configuration) { port = port } }

-- `to_lowercase` of the name of a header, which is ASCII.
abbrev pub lower : ℕ → ℕ
lower b = if leb 65 b && leb b 90 then b + 32 else b

-- A header with its value, which may be no text.
abbrev pub RawHeader : Type 0
RawHeader = Str × Option Str

-- The headers that have a text for value, in their order.
pub readable : List RawHeader → List (Str × Str)
readable [] = []
readable ((name, none) ∷ headers) = readable headers
readable ((name, some value) ∷ headers) = (map lower name, value) ∷ readable headers

-- The headers as the handshake's callback puts them into a map, one after another.
unfoldable pub capture : HashMap Str → List RawHeader → HashMap Str
capture m [] = m
capture m ((name, none) ∷ headers) = capture m headers
capture m ((name, some value) ∷ headers) = capture (insert (map lower name) value m) headers

-- What the socket that was accepted sends: a request that the handshake accepts, or none.
pub record Handshake : Type 0 where
  pub uri : Str
  pub headers : List RawHeader

pub data ListenEvent : Type 0 where
  accepted : Option Handshake → ListenEvent
  accept_failed shutdown_changed : ListenEvent

-- `parse` is `form_urlencoded::parse` of the url crate.
module _ (parse : Bytes → List (Str × Str)) where
  unfoldable pub request_of : Handshake → RequestInfo
  request_of h = record {
    headers = capture [] h.headers;
    parameters = get_parameters parse h.uri;
    url = h.uri;
  }

  abbrev pub served : Option Handshake → List RequestInfo → List RequestInfo
  served none rest = rest
  served (some h) rest = request_of h ∷ rest

  -- The requests with which `handle_websocket` is called, and whether the loop has ended.
  unfoldable pub accept_loop : List ListenEvent → List RequestInfo × Bool
  accept_loop [] = ([], false)
  accept_loop (accepted h ∷ events) =
      let (rest, ended) = accept_loop events in (served h rest, ended)
  accept_loop (accept_failed ∷ events) = accept_loop events
  accept_loop (shutdown_changed ∷ events) = ([], true)

  -- `bound` tells whether the address could be bound; otherwise nothing else happens.
  unfoldable pub listen :
      Bool
      → Option ℕ
      → List ListenEvent
      → Server
      → Option (Ran × (List RequestInfo × Bool)) × Server
  listen bound port events s =
      let s' = with_port port s in
      if bound
      then (some (hooks on_listen s'.hocuspocus.extensions, accept_loop events), s')
      else (none, s')

  abbrev IsRunning : ListenEvent → Type 0
  IsRunning shutdown_changed = ⊥
  IsRunning _ = Unit

  -- The requests of the sockets whose handshake succeeds.
  pub requests : List ListenEvent → List RequestInfo
  requests [] = []
  requests (accepted (some h) ∷ events) = request_of h ∷ requests events
  requests (_ ∷ events) = requests events

  -- The loop serves every socket that comes before the shutdown and completes its handshake, in the order
  -- in which they come, whatever fails in between, and none behind it.
  accept_loop-requests :
      (before behind : List ListenEvent)
      → All IsRunning before
      → accept_loop (before ++ (shutdown_changed ∷ behind)) ≡ (requests before, true)
  unfolding accept_loop requests
  accept_loop-requests [] behind running = refl
  accept_loop-requests (accepted none ∷ before) behind running =
      accept_loop-requests before behind running.1
  accept_loop-requests (accepted (some h) ∷ before) behind running =
      ap (λ r. (request_of h ∷ r.0, r.1)) (accept_loop-requests before behind running.1)
  accept_loop-requests (accept_failed ∷ before) behind running =
      accept_loop-requests before behind running.1
  accept_loop-requests (shutdown_changed ∷ before) behind running = elim (running.0) [ ]

capture-collect :
    (m : HashMap Str) (headers : List RawHeader) → capture m headers ≡ collect m (readable headers)
unfolding capture readable collect
capture-collect m [] = refl
capture-collect m ((name, none) ∷ headers) = capture-collect m headers
capture-collect m ((name, some value) ∷ headers) =
    capture-collect (insert (map lower name) value m) headers

-- A header of a request is found under its name in small letters, and is what the last header of that
-- name that could be read gives.
capture-last_of :
    (key : Str) (headers : List RawHeader)
    → get key (capture [] headers) ≡ last_of key (readable headers)
unfolding get
capture-last_of key headers =
    ap (get key) (capture-collect [] headers)
    ∙ get-collect key [] (readable headers)
    ∙ or_else-none (last_of key (readable headers))

-- The two ways to make a server are one.
new-with_config : (config : ServerConfiguration) → new (some config) ≡ with_config config
unfolding new with_config
new-with_config config = refl
