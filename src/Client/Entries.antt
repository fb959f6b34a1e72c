-- ===== src/Client/Entries.antt =====
-- What holds of every connection of a socket, whatever frames it sends: a predicate that the methods
-- of a connection keep, and that the set-up of a connection establishes.
use hocuspocu_rs.Base.{
  ℕ, ◌+◌, ◌≡◌, ◌≢◌, refl, ◌∙◌, ◌⊎◌, inr, Bool, true, false, List, [], ◌∷◌, Option, none, some,
  Bytes, Str, HashMap, get, All, All-insert, All-get, All-remove, ◌||◌, ◌==◌,
}
use hocuspocu_rs.Codec
use hocuspocu_rs.Common.{CloseEvent}
use hocuspocu_rs.Common.RoutingKey.{parse_routing_key}
use hocuspocu_rs.Connection
use hocuspocu_rs.Connection.{Connection, Peer}
use hocuspocu_rs.Types.{Context}
use hocuspocu_rs.Client.{
  HookPayloadEntry, Hooks, Client, default_config, connection_for, authenticated, found, peer_of,
  put_peer, forward, forwarded, close_each, close_all, cleanup_document_state, denied, and_then,
}
use hocuspocu_rs.Client.Handshake.{drain, finish_setup, handle_message}
use hocuspocu_rs.Yrs.{Yrs}
pub mod Frames

module _ (y : Yrs) where
  module _ (h : Hooks) (P : Str × (ℕ × Connection) → Type 0) (Q : HookPayloadEntry → Type 0)
      (May : Str → Type 0) where
    -- `P` is of an entry of `document_connections`, `Q` of a stored payload, and `May` of a key whose
    -- authentication the hook accepted.
    pub record IsKept : Type 0 where
      pub closes :
          (key : Str) (doc : ℕ) (event : Option CloseEvent) (p : Peer y)
          → P (key, (doc, p.conn))
          → P (key, (doc, (Connection.close y event p).conn))
      pub handles :
          (key : Str) (doc : ℕ) (bytes : Bytes) (handled : Bool) (p q : Peer y)
          → P (key, (doc, p.conn))
          → Connection.handle_message y bytes p ≡ some (handled, q)
          → P (key, (doc, q.conn))
      pub greets :
          (key : Str) (doc : ℕ) (p : Peer y)
          → P (key, (doc, p.conn))
          → P (key, (doc, (Connection.init_awareness y p).conn))
      pub admits :
          (key token : Str) (n : ℕ) (p : HookPayloadEntry) (answer : Option Context)
          → h.on_authenticate n (parse_routing_key key).0 token p ≡ inr answer
          → May key
      pub enters :
          (key : Str) (doc : ℕ) (id : Str) (ws : ℕ) (name socket : Str) (session : Option Str)
          (p : HookPayloadEntry)
          → May key
          → Q p
          → P (key, (doc, connection_for h id ws name socket session p))
      pub default_payload :
          (context : Context)
          → Q (record {
            connection_config = default_config;
            context = context;
            provider_version = none;
          })
      pub with_context :
          (p : HookPayloadEntry) (context : Context) → Q p → Q (record p { context = context })
      pub with_provider :
          (p : HookPayloadEntry) (version : Option Str)
          → Q p
          → Q (record p { provider_version = version })
      pub with_authenticated : (p : HookPayloadEntry) → Q p → Q (authenticated p)

    pub record Holds (c : Client y) : Type 0 where
      pub conns : All P c.document_connections
      pub payloads : All (λ e. Q e.1) c.hook_payloads

    module _ (inv : IsKept) where
      pub put_peer-Holds :
          (key : Str) (doc : ℕ) (p : Peer y) (c : Client y)
          → P (key, (doc, p.conn))
          → Holds c
          → Holds (put_peer y key doc p c)
      put_peer-Holds key doc p c k hc = record {
        conns = All-insert P key (doc, p.conn) _ k hc.conns;
        payloads = hc.payloads;
      }

      pub forwarded-Holds :
          (key : Str) (doc : ℕ) (conn : Connection) (bytes : Bytes) (c : Client y)
          (o : Option (Bool × Peer y))
          → Connection.handle_message y bytes (peer_of y doc conn c) ≡ o
          → P (key, (doc, conn))
          → Holds c
          → Holds (forwarded y key doc c o).1
      forwarded-Holds key doc conn bytes c none e k hc = hc
      forwarded-Holds key doc conn bytes c (some (handled, p)) e k hc =
          put_peer-Holds key doc p c (inv.handles key doc bytes handled _ p k e) hc

      pub forward-Holds :
          (raw_key name : Str) (bytes : Bytes) (c : Client y) (a b : Option (ℕ × Connection))
          → get raw_key c.document_connections ≡ a
          → get name c.document_connections ≡ b
          → Holds c
          → Holds (forward y bytes c (found raw_key name a b)).1
      forward-Holds raw_key name bytes c (some (doc, conn)) b e d hc =
          forwarded-Holds raw_key doc conn bytes c _ refl
            (All-get P raw_key (doc, conn) _ hc.conns e) hc
      forward-Holds raw_key name bytes c none (some (doc, conn)) e d hc =
          forwarded-Holds name doc conn bytes c _ refl (All-get P name (doc, conn) _ hc.conns d) hc
      forward-Holds raw_key name bytes c none none e d hc = hc

      pub stored-Holds :
          (raw_key : Str) (bytes : Bytes) (c : Client y) (a : Option (ℕ × Connection))
          → get raw_key c.document_connections ≡ a
          → Holds c
          → Holds (forward y bytes c (found raw_key raw_key a none)).1
      stored-Holds raw_key bytes c (some (doc, conn)) e hc =
          forwarded-Holds raw_key doc conn bytes c _ refl
            (All-get P raw_key (doc, conn) _ hc.conns e) hc
      stored-Holds raw_key bytes c none e hc = hc

      close_each-Holds :
          (event : Option CloseEvent) (conns : HashMap (ℕ × Connection)) (c : Client y)
          → All P conns
          → Holds c
          → Holds (close_each y event conns c)
      unfolding close_each
      close_each-Holds event [] c ps hc = hc
      close_each-Holds event ((key, (doc, conn)) ∷ conns) c ps hc =
          close_each-Holds event conns _ ps.1
            (put_peer-Holds key doc _ c (inv.closes key doc event (peer_of y doc conn c) ps.0) hc)

      pub close_all-Holds :
          (event : Option CloseEvent) (c : Client y) → Holds c → Holds (close_all y event c)
      unfolding close_all
      close_all-Holds event c hc = close_each-Holds event c.document_connections c hc.conns hc

      pub and_then-Holds :
          (r : Bool × Client y) (f : Client y → Bool × Client y)
          → Holds r.1
          → ((c : Client y) → Holds c → Holds (f c).1)
          → Holds (and_then y r f).1
      and_then-Holds (true, c) f hc keep = keep c hc
      and_then-Holds (false, c) f hc keep = hc

      pub drain-Holds :
          (raw_key : Str) (queued : List Bytes) (c : Client y)
          → Holds c
          → Holds (drain y raw_key queued c).1
      unfolding drain
      drain-Holds raw_key [] c hc = hc
      drain-Holds raw_key (msg ∷ queued) c hc =
          and_then-Holds _ (drain y raw_key queued) (stored-Holds raw_key msg c _ refl hc)
            (λ c' hc'. drain-Holds raw_key queued c' hc')

      pub finish-Holds :
          (id : Str) (r : Bool × Client y) → Holds r.1 → Holds (finish_setup y id r).1
      finish-Holds id (true, c) hc = record { conns = hc.conns; payloads = hc.payloads }
      finish-Holds id (false, c) hc = hc

      pub denied-Holds : (key reason : Str) (c : Client y) → Holds c → Holds (denied y key reason c)
      unfolding cleanup_document_state
      denied-Holds key reason c hc = record {
        conns = hc.conns;
        payloads = All-remove (λ e. Q e.1) key _ hc.payloads;
      }
