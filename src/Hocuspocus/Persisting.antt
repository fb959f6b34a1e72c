-- ===== src/Hocuspocus/Persisting.antt =====
-- The server as it stores the changes of its documents: the observers' updates, direct connections
-- that leave, flushes, and the debouncer's tasks, in any order.
use hocuspocu_rs.Base.{
  ℕ, ◌≤◌, ◌≡◌, ◌≢◌, ◌⊎◌, ◌∙◌, ◌&&◌, List, [], ◌∷◌, ◌++◌, some, Str, Bytes, get_elem?, if◌then◌else◌,
}
use hocuspocu_rs.Debounce
use hocuspocu_rs.Debounce.{Debouncer, move, tick}
use hocuspocu_rs.Debounce.Lasting.{IsKept, Contains}
use hocuspocu_rs.DirectConnection.{released}
use hocuspocu_rs.Hocuspocus.Opening.{on_update}
use hocuspocu_rs.Hocuspocus.Storing.{Hocuspocus, StorePayload, flush_one}
use hocuspocu_rs.Types.{Context}
use hocuspocu_rs.Yrs.{Yrs}
pub mod Changes
pub mod Stored
pub mod Lost

-- * `changed`: the observer's task for an update of a document;
-- * `left`: a direct connection to a document is disconnected;
-- * `flushed`: `flush_pending_stores` comes to a document, or the last connection to it closes;
-- * `turn_of`: a task of the debouncer goes on; `passed`: time goes by.
pub data ServerEvent : Type 0 where
  changed : ℕ → Bytes → ServerEvent
  left : ℕ → Context → ServerEvent
  flushed turn_of passed : ℕ → ServerEvent

-- Of those handed to the debouncer since there were `old` of them, a function that stores the document
-- has run, or a task is to run it.
pub record IsStored (old doc : ℕ) (id : Str) (stores : List StorePayload) (d : Debouncer)
    : Type 0 where
  pub func : ℕ
  pub payload : StorePayload
  pub since : old ≤ func
  pub found : get_elem? stores func ≡ some payload
  pub its : payload.document ≡ doc
  pub kept : IsKept id func d

-- Such a function has run.
pub record IsExecuted (old doc : ℕ) (stores : List StorePayload) (executed : List ℕ) : Type 0 where
  pub func : ℕ
  pub payload : StorePayload
  pub since : old ≤ func
  pub found : get_elem? stores func ≡ some payload
  pub its : payload.document ≡ doc
  pub ran : Contains func executed

module _ (y : Yrs) where
  unfoldable pub step : ServerEvent → Hocuspocus y → Hocuspocus y
  step (changed doc update) s = on_update y doc update s
  step (left doc context) s = released y doc context s
  step (flushed doc) s = flush_one y doc s
  step (turn_of task) s = record s { debouncer = Debounce.step (move task) s.debouncer }
  step (passed ms) s = record s { debouncer = Debounce.step (tick ms) s.debouncer }

  unfoldable pub run : List ServerEvent → Hocuspocus y → Hocuspocus y
  run [] s = s
  run (event ∷ events) s = run events (step event s)

  -- The documents of the state, by their numbers, have these names.
  abbrev pub HasNames : (ℕ → Str) → Hocuspocus y → Type 0
  HasNames names s = (doc : ℕ) → (s.docs doc).name ≡ names doc

  -- The event is about this document, or about one of another name.
  abbrev pub IsApart : (ℕ → Str) → ℕ → ServerEvent → Type 0
  IsApart names doc (changed other _) = (other ≡ doc) ⊎ (names other ≢ names doc)
  IsApart names doc (left other _) = (other ≡ doc) ⊎ (names other ≢ names doc)
  IsApart names doc _ = Unit
