-- ===== src/Client/Stuck.antt =====
-- A frame of type Auth that ends behind its type: the client's later frames for that key, an
-- authentication included, wait for ever.
use hocuspocu_rs.Base.{
  ℕ, ◌≡◌, Bool, true, false, List, [], ◌∷◌, Option, none, some, Bytes, Str, get, contains_key,
  contains_key-insert_self, ◌++◌, All, Bool-cases, inl, inr, arith, map, not, ◌||◌, ◌==◌,
}
use hocuspocu_rs.Base.Outcome.{Outcome, ok, err, panic}
use hocuspocu_rs.Codec
use hocuspocu_rs.Codec.{Decoder, IoError, read_var_uint, read_var_string}
use hocuspocu_rs.Common.RoutingKey.{parse_routing_key}
use hocuspocu_rs.Types.{code, auth}
use hocuspocu_rs.Client.{Hooks, Client, ClientCall, and_then}
use hocuspocu_rs.Client.Events.{SocketEvent, frame, run}
use hocuspocu_rs.Client.Handshake.{
  handle_message, handle_queueing_message, by_type, enqueue, first_frame, with_sub_type,
}
use hocuspocu_rs.Yrs.{Yrs}

abbrev pub as_event : ℕ × Bytes → SocketEvent
as_event (now, bytes) = frame now bytes

-- A frame whose address is the key.
abbrev pub IsAddressed : Str → ℕ × Bytes → Type 0
IsAddressed key (now, bytes) = (d : Decoder) × (read_var_string (Codec.new bytes) ≡ (ok key, d))

module _ (y : Yrs) (h : Hooks) (key : Str) where
  abbrev name : Str
  name = (parse_routing_key key).0

  record IsStuck (calls : List ClientCall) (c : Client y) : Type 0 where
    unconnected : get key c.document_connections ≡ none
    unnamed : get name c.document_connections ≡ none
    established : contains_key key c.document_connections_established ≡ true
    queueing : contains_key key c.incoming_message_queue ≡ true
    unasked : c.hook_calls ≡ calls

  enqueue-IsStuck :
      (calls : List ClientCall) (bytes : Bytes) (o : Option (List Bytes)) (c : Client y)
      → IsStuck calls c
      → IsStuck calls (enqueue y h key name bytes o c)
  enqueue-IsStuck calls bytes none c s = s
  enqueue-IsStuck calls bytes (some q) c s = record {
    unconnected = s.unconnected;
    unnamed = s.unnamed;
    established = s.established;
    queueing = contains_key-insert_self key (q ++ (bytes ∷ [])) c.incoming_message_queue;
    unasked = s.unasked;
  }

  typed-IsStuck :
      (calls : List ClientCall) (bytes : Bytes) (r : Outcome IoError ℕ × Decoder) (c : Client y)
      → IsStuck calls c
      → IsStuck calls (by_type y h key name bytes r c).1
  typed-IsStuck calls bytes (ok t, d) c s =
      let waits : (not (t == code auth) || contains_key key c.document_connections_established)
          ≡ true =
        ground (arith, s.established) in
      rw waits (enqueue-IsStuck calls bytes (get key c.incoming_message_queue) c s)
  typed-IsStuck calls bytes (err e, d) c s = record {
    unconnected = s.unconnected;
    unnamed = s.unnamed;
    established = s.established;
    queueing = s.queueing;
    unasked = s.unasked;
  }
  typed-IsStuck calls bytes (panic, d) c s = s

  frame-IsStuck :
      (calls : List ClientCall) (now : ℕ) (bytes : Bytes) (c : Client y)
      → IsAddressed key (now, bytes)
      → IsStuck calls c
      → IsStuck calls (handle_message y h now bytes c).1
  unfolding handle_message handle_queueing_message
  frame-IsStuck calls now bytes c (d, e) s =
      rw (e, s.unconnected, s.unnamed, s.queueing, e)
        (typed-IsStuck calls bytes (read_var_uint d) (record c { last_message_received_at = now })
          (record {
            unconnected = s.unconnected;
            unnamed = s.unnamed;
            established = s.established;
            queueing = s.queueing;
            unasked = s.unasked;
          }))

  and_then-IsStuck :
      (calls : List ClientCall) (r : Bool × Client y) (f : Client y → Bool × Client y)
      → IsStuck calls r.1
      → ((c : Client y) → IsStuck calls c → IsStuck calls (f c).1)
      → IsStuck calls (and_then y r f).1
  and_then-IsStuck calls (true, c) f s keep = keep c s
  and_then-IsStuck calls (false, c) f s keep = s

  frames-IsStuck :
      (calls : List ClientCall) (frames : List (ℕ × Bytes)) (c : Client y)
      → All (IsAddressed key) frames
      → IsStuck calls c
      → IsStuck calls (run y h (map as_event frames) c).1
  unfolding run
  frames-IsStuck calls [] c a s = s
  frames-IsStuck calls ((now, bytes) ∷ frames) c a s =
      and_then-IsStuck calls _ (run y h (map as_event frames))
        (frame-IsStuck calls now bytes c a.0 s) (λ c' s'. frames-IsStuck calls frames c' a.1 s')

  first_frame-queueing :
      (c : Client y) → contains_key key (first_frame y key c).incoming_message_queue ≡ true
  first_frame-queueing c = elim (Bool-cases (contains_key key c.incoming_message_queue)) [
    | inl known ↦ rw known known
    | inr new ↦ rw new (contains_key-insert_self key [] c.incoming_message_queue)
  ]

  first_frame-conns :
      (c : Client y) → (first_frame y key c).document_connections ≡ c.document_connections
  first_frame-conns c = ground arith

  first_frame-established :
      (c : Client y)
      → (first_frame y key c).document_connections_established ≡ c.document_connections_established
  first_frame-established c = ground arith

  first_frame-calls : (c : Client y) → (first_frame y key c).hook_calls ≡ c.hook_calls
  first_frame-calls c = ground arith

  sub_type-IsStuck :
      (calls : List ClientCall) (r : Outcome IoError ℕ × Decoder) (e : IoError) (c : Client y)
      → r.0 ≡ err e
      → IsStuck calls c
      → IsStuck calls (with_sub_type y h key name r c).1
  sub_type-IsStuck calls (ok t, d) e c f s = cc
  sub_type-IsStuck calls (err x, d) e c f s = s
  sub_type-IsStuck calls (panic, d) e c f s = cc

  truncated-IsStuck :
      (now : ℕ) (bytes : Bytes) (d d' : Decoder) (e : IoError) (c : Client y)
      → read_var_string (Codec.new bytes) ≡ (ok key, d)
      → read_var_uint d ≡ (ok (code auth), d')
      → (read_var_uint d').0 ≡ err e
      → get key c.document_connections ≡ none
      → get name c.document_connections ≡ none
      → contains_key key c.document_connections_established ≡ false
      → IsStuck c.hook_calls (handle_message y h now bytes c).1
  unfolding handle_message handle_queueing_message code
  truncated-IsStuck now bytes d d' e c address kind short alone unnamed new =
      let c' = first_frame y key (record c { last_message_received_at = now }) in
      rw (address, alone, unnamed, address, kind, first_frame-established, new)
        (sub_type-IsStuck c.hook_calls (read_var_uint d') e _ short (record {
          unconnected = rw first_frame-conns alone;
          unnamed = rw first_frame-conns unnamed;
          established = contains_key-insert_self key tt c.document_connections_established;
          queueing = first_frame-queueing (record c { last_message_received_at = now });
          unasked = first_frame-calls (record c { last_message_received_at = now });
        }))

  -- A first frame for a key that is of type Auth and ends behind the type shuts the key out for good:
  -- whatever frames follow under that key, a whole authentication among them, none is connected, and
  -- no hook is asked.
  pub truncated_auth_never_connects :
      (now : ℕ) (bytes : Bytes) (d d' : Decoder) (e : IoError) (c : Client y)
      (frames : List (ℕ × Bytes))
      → read_var_string (Codec.new bytes) ≡ (ok key, d)
      → read_var_uint d ≡ (ok (code auth), d')
      → (read_var_uint d').0 ≡ err e
      → get key c.document_connections ≡ none
      → get (parse_routing_key key).0 c.document_connections ≡ none
      → contains_key key c.document_connections_established ≡ false
      → All (IsAddressed key) frames
      → let c' = (run y h (map as_event ((now, bytes) ∷ frames)) c).1 in
        (get key c'.document_connections ≡ none) × (c'.hook_calls ≡ c.hook_calls)
  unfolding run
  truncated_auth_never_connects now bytes d d' e c frames address kind short alone unnamed new a =
      let s =
        and_then-IsStuck c.hook_calls (handle_message y h now bytes c)
          (run y h (map as_event frames))
          (truncated-IsStuck now bytes d d' e c address kind short alone unnamed new)
          (λ c' s'. frames-IsStuck c.hook_calls frames c' a s') in
      (s.unconnected, s.unasked)
