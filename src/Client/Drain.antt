-- ===== src/Client/Drain.antt =====
-- Frames that are taken from the queue of a key do what the same frames do when they arrive behind
-- the authentication.
use hocuspocu_rs.Base.{
  ℕ, ◌≡◌, ◌≢◌, refl, Bool, true, false, List, [], ◌∷◌, Option, none, some, Bytes, Str, get,
  get-insert_self, All, map,
}
use hocuspocu_rs.Base.Outcome.{ok}
use hocuspocu_rs.Codec
use hocuspocu_rs.Codec.{Decoder, read_var_uint, read_var_string}
use hocuspocu_rs.Connection
use hocuspocu_rs.Connection.{Connection, Peer}
use hocuspocu_rs.Types.{code, auth}
use hocuspocu_rs.Client.{Hooks, Client, and_then, forward, forwarded, peer_of, stored}
use hocuspocu_rs.Client.Handshake.{handle_message, drain}
use hocuspocu_rs.Client.Events.{run}
use hocuspocu_rs.Client.Stuck.{as_event}
use hocuspocu_rs.Yrs.{Yrs}

-- A frame for the key whose type is read and is not Auth.
abbrev pub IsEarly : Str → ℕ × Bytes → Type 0
IsEarly key (now, bytes) =
    (d d' : Decoder) × (t : ℕ) × (read_var_string (Codec.new bytes) ≡ (ok key, d))
    × (read_var_uint d ≡ (ok t, d'))
    × (t ≢ code auth)

abbrev pub bytes_of : ℕ × Bytes → Bytes
bytes_of (now, bytes) = bytes

module _ (y : Yrs) (h : Hooks) (key : Str) where
  -- What two states of a socket have in common as far as its connections go.
  pub record IsAlike (c d : Client y) : Type 0 where
    pub connections : c.document_connections ≡ d.document_connections
    pub documents : c.documents ≡ d.documents
    pub sinks : c.sinks ≡ d.sinks
    pub calls : c.calls ≡ d.calls

  -- The same for what a frame returns.
  abbrev pub AreAlike : Bool × Client y → Bool × Client y → Type 0
  AreAlike r s = (r.0 ≡ s.0) × IsAlike r.1 s.1

  peers-alike :
      (c d : Client y) (doc : ℕ) (conn : Connection)
      → IsAlike c d
      → peer_of y doc conn c ≡ peer_of y doc conn d
  peers-alike c d doc conn a = λ i. record {
    conn = conn;
    room = record { document = a.documents i doc; sinks = a.sinks i };
    calls = a.calls i;
  }

  forwarded-alike :
      (doc : ℕ) (c d : Client y) (o : Option (Bool × Peer y))
      → IsAlike c d
      → AreAlike (forwarded y key doc c o) (forwarded y key doc d o)
  forwarded-alike doc c d none a = (refl, a)
  forwarded-alike doc c d (some (handled, p)) a = (
    refl,
    record {
      connections = rw (a.connections);
      documents = rw (a.documents);
      sinks = refl;
      calls = refl;
    },
  )

  abbrev HasConnection : Client y → Type 0
  HasConnection c = (e : ℕ × Connection) × (get key c.document_connections ≡ some e)

  forwarded-HasConnection :
      (doc : ℕ) (c : Client y) (o : Option (Bool × Peer y))
      → HasConnection c
      → HasConnection (forwarded y key doc c o).1
  forwarded-HasConnection doc c none e = e
  forwarded-HasConnection doc c (some (handled, p)) e =
      ((doc, p.conn), get-insert_self key (doc, p.conn) c.document_connections)

  -- A frame that is taken from the queue does what the same frame does when it arrives.
  frame-alike :
      (now : ℕ) (bytes : Bytes) (c d : Client y) (past : Decoder)
      → read_var_string (Codec.new bytes) ≡ (ok key, past)
      → HasConnection c
      → IsAlike c d
      → AreAlike (forward y bytes c (stored y key c)) (handle_message y h now bytes d)
        × HasConnection (forward y bytes c (stored y key c)).1
  unfolding handle_message
  frame-alike now bytes c d past address ((doc, conn), e) a =
      let e' : get key d.document_connections ≡ some (doc, conn) = rw (← a.connections) e in
      let d' : Client y = record d { last_message_received_at = now } in
      rw (e, address, e', ← peers-alike c d doc conn a)
        (
          forwarded-alike doc c d' (Connection.handle_message y bytes (peer_of y doc conn c))
              (record {
                connections = a.connections;
                documents = a.documents;
                sinks = a.sinks;
                calls = a.calls;
              }),
          forwarded-HasConnection doc c (Connection.handle_message y bytes (peer_of y doc conn c))
              ((doc, conn), e),
        )

  pub and_then-alike :
      (r s : Bool × Client y) (f g : Client y → Bool × Client y)
      → AreAlike r s
      → (IsAlike r.1 s.1 → AreAlike (f r.1) (g s.1))
      → AreAlike (and_then y r f) (and_then y s g)
  and_then-alike (true, c) (true, d) f g a next = next a.1
  and_then-alike (false, c) (false, d) f g a next = a
  and_then-alike (true, c) (false, d) f g a next = cc
  and_then-alike (false, c) (true, d) f g a next = cc

  pub drain-run :
      (frames : List (ℕ × Bytes)) (c d : Client y)
      → All (IsEarly key) frames
      → HasConnection c
      → IsAlike c d
      → AreAlike (drain y key (map bytes_of frames) c) (run y h (map as_event frames) d)
  unfolding drain run
  drain-run [] c d early e a = (refl, a)
  drain-run ((now, bytes) ∷ frames) c d ((past, past_type, t, address, kind, other), early) e a =
      let step = frame-alike now bytes c d past address e a in
      and_then-alike (forward y bytes c (stored y key c)) (handle_message y h now bytes d)
        (drain y key (map bytes_of frames)) (run y h (map as_event frames)) step.0
        (λ a'. drain-run frames _ _ early step.1 a')
