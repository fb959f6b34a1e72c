-- ===== src/Hocuspocus/Loading.antt =====
-- hocuspocus.rs, `create_document`, as it interleaves: any number of calls, each cut at its awaits.
use hocuspocu_rs.Base.{
  ℕ, suc, Bool, true, false, ◌⊎◌, inl, inr, List, [], ◌∷◌, Option, none, some, Str, text, HashMap,
  get, insert, remove, ◌==◌, if◌then◌else◌,
}
use hocuspocu_rs.Hocuspocus.Blank.{is_blank}

-- A result of `create_document`: the text of an error, or a document, named by a number.
abbrev pub Loaded : Type 0
Loaded = Str ⊎ ℕ

-- Where a call stands. The names say what it does next:
-- * `check`, `seek`: the first look at `documents`, and at `loading_documents`;
-- * `await_other`, `check_again`: the lock of a load that was found, and `documents` behind it;
-- * `start`: the write lock on `loading_documents` with its double check;
-- * `await_racer`, `check_racer`: the same two for a load that the double check found, the second with
--   the lock of that load held;
-- * `load`: `load_document` runs; `settle`, `publish`, `clear`: what follows it.
pub data Call : Type 0 where
  check seek check_again start : Str → Call
  await_other await_racer check_racer load : Str → ℕ → Call
  settle : Str → ℕ → Loaded → Call
  publish : Str → ℕ → Call
  clear : Str → Loaded → Call
  returned : Loaded → Call

-- `loading_documents` maps a name to the number of its lock, and `locks` a lock to what is in it;
-- `held` tells whether a call holds the lock.
pub record Tables : Type 0 where
  pub documents : HashMap ℕ
  pub loading : HashMap ℕ
  pub locks : ℕ → Option Loaded
  pub held : ℕ → Bool
  pub next_lock : ℕ

abbrev pub empty_name : Str
empty_name = text "Document name must not be empty"

abbrev pub failed_concurrently : Str
failed_concurrently = text "Document load failed concurrently"

abbrev pub found : Call → Option ℕ → Call
found otherwise none = otherwise
found otherwise (some doc) = returned (inr doc)

abbrev pub settled : Call → Option Loaded → Call
settled otherwise none = otherwise
settled otherwise (some result) = returned result

abbrev pub sought : Str → Option ℕ → Call
sought name none = start name
sought name (some lock) = await_other name lock

abbrev pub begin : Str → Tables → Option ℕ → Call × Tables
begin name t (some lock) = (await_racer name lock, t)
begin name t none = (
  load name t.next_lock,
  record t {
    loading = insert name t.next_lock t.loading;
    locks = λ k. if k == t.next_lock then none else t.locks k;
    held = λ k. if k == t.next_lock then false else t.held k;
    next_lock = suc t.next_lock;
  },
)

abbrev pub after_settle : Str → Loaded → Call
after_settle name (inr doc) = publish name doc
after_settle name (inl e) = clear name (inl e)

abbrev pub set_held : ℕ → Bool → Tables → Tables
set_held lock busy t = record t { held = λ k. if k == lock then busy else t.held k }

-- A load that has ended gives its result; else the racer keeps the lock until it has looked at
-- `documents`.
abbrev pub raced : Str → ℕ → Tables → Option Loaded → Call × Tables
raced name lock t none = (check_racer name lock, set_held lock true t)
raced name lock t (some result) = (returned result, t)

-- A call up to its next await; one that wants a lock which another holds stays where it is. `result`
-- is what `load_document` gives, if that is what runs.
unfoldable pub advance : Loaded → Call → Tables → Call × Tables
advance result (check name) t = (
  if is_blank name then returned (inl empty_name) else found (seek name) (get name t.documents),
  t,
)
advance result (seek name) t = (sought name (get name t.loading), t)
advance result (await_other name lock) t =
    if t.held lock
    then (await_other name lock, t)
    else (settled (check_again name) (t.locks lock), t)
advance result (check_again name) t = (found (start name) (get name t.documents), t)
advance result (start name) t = begin name t (get name t.loading)
advance result (await_racer name lock) t =
    if t.held lock then (await_racer name lock, t) else raced name lock t (t.locks lock)
advance result (check_racer name lock) t =
    (found (returned (inl failed_concurrently)) (get name t.documents), set_held lock false t)
advance result (load name lock) t = (settle name lock result, t)
advance result (settle name lock r) t =
    if t.held lock
    then (settle name lock r, t)
    else (after_settle name r, record t { locks = λ k. if k == lock then some r else t.locks k })
advance result (publish name doc) t =
    (clear name (inr doc), record t { documents = insert name doc t.documents })
advance result (clear name r) t = (returned r, record t { loading = remove name t.loading })
advance result (returned r) t = (returned r, t)

-- All the calls, each under a number, and the tables that they share.
pub record Server : Type 0 where
  pub tables : Tables
  pub calls : ℕ → Call

-- What may happen: call `i` goes on, with what its `load_document` gives if that is what runs; or
-- `unload_document` takes a name out of `documents`.
pub data Event : Type 0 where
  move : ℕ → Loaded → Event
  unload : Str → Event

abbrev pub put : ℕ → Server → Call × Tables → Server
put i s (call, t) = record { tables = t; calls = λ j. if i == j then call else s.calls j }

unfoldable pub step : Event → Server → Server
step (move i result) s = put i s (advance result (s.calls i) s.tables)
step (unload name) s = record s {
  tables = record (s.tables) { documents = remove name s.tables.documents };
}

unfoldable pub run : List Event → Server → Server
run [] s = s
run (event ∷ schedule) s = run schedule (step event s)

-- No document and no load; call `i` asks for the document `names i`.
unfoldable pub initial : (ℕ → Str) → Server
initial names = record {
  tables = record {
    documents = [];
    loading = [];
    locks = λ k. none;
    held = λ k. false;
    next_lock = 0;
  };
  calls = λ i. check (names i);
}
