-- ===== src/Connection/Closing.antt =====
-- Closing a connection, and what is left of it afterwards.
use hocuspocu_rs.Base.{
  ◌⊎◌, ℕ, zero, suc, ◌≡◌, refl, true, false, List, [], ◌∷◌, Option, none, some, Bytes, Str, get,
  get-remove, bytes_eq_refl, contains_key_of_none, arith, Bool-cases, inl, inr,
}
use hocuspocu_rs.Common.{CloseEvent}
use hocuspocu_rs.Document.{
  Room, ConnectionEntry, has_connection, remove_connection, drop_entry, depart, announce,
  broadcast_awareness_to_connections,
}
use hocuspocu_rs.Connection.{Peer, send, close, run_on_close}
use hocuspocu_rs.Yrs.{Yrs}

module _ (y : Yrs) where
  -- Sending does not touch the document or the connection's name.
  pub send-room : (bytes : Bytes) (p : Peer y) → (send y bytes p).room.document ≡ p.room.document
  unfolding send
  send-room bytes p = ground arith

  pub send-id : (bytes : Bytes) (p : Peer y) → (send y bytes p).conn.id ≡ p.conn.id
  unfolding send
  send-id bytes p = ground arith

  -- A closed connection sends nothing.
  pub send_closed : (bytes : Bytes) (p : Peer y) → p.conn.closed ≡ true → send y bytes p ≡ p
  unfolding send
  send_closed bytes p h = rw h

  calls-room :
      (n : ℕ) (event : Option CloseEvent) (p : Peer y) → (run_on_close y n event p).room ≡ p.room
  unfolding run_on_close
  calls-room zero event p = refl
  calls-room (suc n) event p = calls-room n event _

  calls-conn :
      (n : ℕ) (event : Option CloseEvent) (p : Peer y) → (run_on_close y n event p).conn ≡ p.conn
  unfolding run_on_close
  calls-conn zero event p = refl
  calls-conn (suc n) event p = calls-conn n event _

  announce-connections : (u : Str ⊎ Bytes) (r : Room y) → (announce y u r).document ≡ r.document
  unfolding broadcast_awareness_to_connections
  announce-connections (inr u) r = refl
  announce-connections (inl e) r = refl

  depart-connections :
      (clients : List ℕ) (r : Room y)
      → (depart y clients r).document.connections ≡ r.document.connections
  depart-connections [] r = refl
  depart-connections (c ∷ cs) r = rw announce-connections

  drop_entry-connections :
      (c : Str) (r : Room y) (o : Option ConnectionEntry)
      → get c r.document.connections ≡ o
      → get c (drop_entry y c r o).document.connections ≡ none
  drop_entry-connections c r none e = e
  drop_entry-connections c r (some entry) e = rw depart-connections (rw (get-remove, bytes_eq_refl))

  -- The connection is gone from the document after `remove_connection`.
  pub remove_connection-gone :
      (c : Str) (r : Room y) → has_connection y c (remove_connection y c r).document ≡ false
  unfolding has_connection remove_connection
  remove_connection-gone c r =
      contains_key_of_none c _ (drop_entry-connections c r (get c r.document.connections) refl)

  close_known :
      (event : Option CloseEvent) (p : Peer y)
      → has_connection y p.conn.id p.room.document ≡ true
      → ((close y event p).conn.id ≡ p.conn.id)
        × (has_connection y p.conn.id (close y event p).room.document ≡ false)
  unfolding close
  close_known event p h =
      rw h (rw (send-id, calls-conn), rw (send-room, calls-room, remove_connection-gone))

  close_unknown :
      (event : Option CloseEvent) (p : Peer y)
      → has_connection y p.conn.id p.room.document ≡ false
      → close y event p ≡ p
  unfolding close
  close_unknown event p h = rw h

  -- Whatever the events, only the first close of a connection does anything: the document no longer
  -- knows the connection, and a second close sends nothing and calls nothing.
  pub close-close :
      (first second : Option CloseEvent) (p : Peer y)
      → (has_connection y p.conn.id (close y first p).room.document ≡ false)
        × (close y second (close y first p) ≡ close y first p)
  close-close first second p = elim (Bool-cases (has_connection y p.conn.id p.room.document)) [
    | inl known ↦
        let (id, gone) = close_known first p known in
        (gone, close_unknown second (close y first p) (rw id gone))
    | inr unknown ↦ rw (close_unknown first p unknown) (unknown, close_unknown second p unknown)
  ]
