-- ===== src/Hocuspocus/Provenance/Turns.antt =====
-- A turn of a call keeps what is known of the tables and of the call.
use hocuspocu_rs.Base.{
  ℕ, ◌≡◌, ◌≤◌, ◌<◌, ◌∙◌, refl, sym, inl, inr, Option, none, some, Str, get, insert, remove,
  get-insert, get-remove, bytes_eq, bytes_eq_iff, ◌==◌, ==_iff, if◌then◌else◌, arith, Bool-cases,
  false≢true, Bool, true, false,
}
use hocuspocu_rs.Hocuspocus.Blank.{is_blank}
use hocuspocu_rs.Hocuspocus.Loading.{
  Call, check, seek, await_other, check_again, start, await_racer, check_racer, load, settle, found,
  settled, sought, after_settle, failed_concurrently, publish, clear, returned, Tables, Loaded,
  begin, raced, set_held, advance,
}

module _ (Given : Str → ℕ → Type 0) where
  abbrev pub Fits : Str → Loaded → Type 0
  Fits name (inl e) = Unit
  Fits name (inr doc) = Given name doc

  -- Each lock was made for one name.
  abbrev pub Locks : (ℕ → Str) → ℕ → Str → ℕ → Type 0
  Locks owner next name lock = (owner lock ≡ name) × (lock < next)

  -- What is known of a call for the document `wanted`.
  abbrev pub CallFits : (ℕ → Str) → ℕ → Str → Call → Type 0
  CallFits owner next wanted (check name) = name ≡ wanted
  CallFits owner next wanted (seek name) = name ≡ wanted
  CallFits owner next wanted (check_again name) = name ≡ wanted
  CallFits owner next wanted (start name) = name ≡ wanted
  CallFits owner next wanted (check_racer name lock) = name ≡ wanted
  CallFits owner next wanted (await_other name lock) = (name ≡ wanted) × Locks owner next name lock
  CallFits owner next wanted (await_racer name lock) = (name ≡ wanted) × Locks owner next name lock
  CallFits owner next wanted (load name lock) = (name ≡ wanted) × Locks owner next name lock
  CallFits owner next wanted (settle name lock r) =
      (name ≡ wanted) × Locks owner next name lock × Fits wanted r
  CallFits owner next wanted (publish name doc) = (name ≡ wanted) × Given wanted doc
  CallFits owner next wanted (clear name r) = (name ≡ wanted) × Fits wanted r
  CallFits owner next wanted (returned r) = Fits wanted r

  pub record TablesFit (owner : ℕ → Str) (t : Tables) : Type 0 where
    pub documents : (name : Str) (doc : ℕ) → get name t.documents ≡ some doc → Given name doc
    pub loading :
        (name : Str) (lock : ℕ) → get name t.loading ≡ some lock → Locks owner t.next_lock name lock
    pub locks : (lock : ℕ) (r : Loaded) → t.locks lock ≡ some r → Fits (owner lock) r

  -- The call and the tables after a turn, with the owners of the locks.
  pub record TurnFits (owner : ℕ → Str) (wanted : Str) (t : Tables) (c' : Call) (t' : Tables)
      : Type 0 where
    pub owner' : ℕ → Str
    pub same : (lock : ℕ) → lock < t.next_lock → owner' lock ≡ owner lock
    pub more : t.next_lock ≤ t'.next_lock
    pub call : CallFits owner' t'.next_lock wanted c'
    pub tables : TablesFit owner' t'

  stays :
      (owner : ℕ → Str) (wanted : Str) (t : Tables) (c' : Call)
      → TablesFit owner t
      → CallFits owner t.next_lock wanted c'
      → TurnFits owner wanted t c' t
  stays owner wanted t c' h call = record {
    owner' = owner;
    same = λ lock lt. refl;
    more = omega arith;
    call = call;
    tables = h;
  }

  found_fits :
      (owner : ℕ → Str) (next : ℕ) (wanted : Str) (c : Call) (o : Option ℕ)
      → CallFits owner next wanted c
      → ((doc : ℕ) → o ≡ some doc → Given wanted doc)
      → CallFits owner next wanted (found c o)
  found_fits owner next wanted c none h given = h
  found_fits owner next wanted c (some doc) h given = given doc refl

  settled_fits :
      (owner : ℕ → Str) (next : ℕ) (wanted : Str) (c : Call) (o : Option Loaded)
      → CallFits owner next wanted c
      → ((r : Loaded) → o ≡ some r → Fits wanted r)
      → CallFits owner next wanted (settled c o)
  settled_fits owner next wanted c none h given = h
  settled_fits owner next wanted c (some r) h given = given r refl

  module _ (owner : ℕ → Str) (t : Tables) (h : TablesFit owner t) where
    known : (name : Str) (doc : ℕ) → get name t.documents ≡ some doc → Given name doc
    known = h.documents

    sought_fits :
        (name : Str) (o : Option ℕ)
        → get name t.loading ≡ o
        → CallFits owner t.next_lock name (sought name o)
    sought_fits name none e = refl
    sought_fits name (some lock) e = (refl, h.loading name lock e)

    locked_fits :
        (name : Str) (lock : ℕ) (c : Call)
        → owner lock ≡ name
        → CallFits owner t.next_lock name c
        → CallFits owner t.next_lock name (settled c (t.locks lock))
    locked_fits name lock c own call =
        settled_fits owner t.next_lock name c (t.locks lock) call
          (λ r e. rw (← own) (h.locks lock r e))

    begin_fits :
        (name : Str) (o : Option ℕ)
        → get name t.loading ≡ o
        → TurnFits owner name t (begin name t o).0 (begin name t o).1
    begin_fits name (some lock) e =
        stays owner name t (await_racer name lock) h (refl, h.loading name lock e)
    begin_fits name none e = record {
      owner' = owned;
      same = λ lock lt. ground (arith, ==_iff lock t.next_lock);
      more = omega arith;
      call = (refl, (ground (arith, ==_iff t.next_lock t.next_lock), omega arith));
      tables = record {
        documents = h.documents;
        loading = λ other lock found. ground (
          arith,
          get-insert name other t.next_lock t.loading,
          bytes_eq_iff name other,
          ==_iff lock t.next_lock,
          h.loading other lock,
        );
        locks = λ lock r held. elim (Bool-cases (lock == t.next_lock)) [
          | inl fresh ↦ let none_yet : none ≡ some r = rw fresh at held in absurd (false≢true (cc))
          | inr old ↦ rw old (h.locks lock r (rw old at held))
        ];
      };
    }
      where
        owned : ℕ → Str
        owned lock = if lock == t.next_lock then name else owner lock

    settle-Fits :
        (name : Str) (lock : ℕ) (r : Loaded)
        → owner lock ≡ name
        → Fits name r
        → TablesFit owner (record t { locks = λ k. if k == lock then some r else t.locks k })
    settle-Fits name lock r own fits = record {
      documents = h.documents;
      loading = h.loading;
      locks = λ k r' held. elim (Bool-cases (k == lock)) [
        | inl same ↦
            let key : k ≡ lock = (==_iff k lock).0 same in
            let both : some r ≡ some r' = rw same at held in
            let value : r ≡ r' = cc in rw (key, own, ← value) fits
        | inr other ↦ h.locks k r' (rw other at held)
      ];
    }

    publish_fits :
        (name : Str) (doc : ℕ)
        → Given name doc
        → TablesFit owner (record t { documents = insert name doc t.documents })
    publish_fits name doc given = record {
      documents = λ other doc' found. elim (Bool-cases (bytes_eq name other)) [
        | inl same ↦
            let key : name ≡ other = (bytes_eq_iff name other).0 same in
            let value : doc ≡ doc' = ground (arith, get-insert name other doc t.documents) in
            rw (← key, ← value) given
        | inr different ↦
            h.documents other doc'
              (sym (get-insert name other doc t.documents ∙ rw different) ∙ found)
      ];
      loading = h.loading;
      locks = h.locks;
    }

    clear_fits : (name : Str) → TablesFit owner (record t { loading = remove name t.loading })
    clear_fits name = record {
      documents = h.documents;
      loading = λ other lock found.
          h.loading other lock (ground (arith, get-remove name other t.loading));
      locks = h.locks;
    }

    same_owner :
        (wanted : Str) (c' : Call) (t' : Tables)
        → t'.next_lock ≡ t.next_lock
        → CallFits owner t.next_lock wanted c'
        → TablesFit owner t'
        → TurnFits owner wanted t c' t'
    same_owner wanted c' t' next call fits = record {
      owner' = owner;
      same = λ lock lt. refl;
      more = omega arith;
      call = rw next call;
      tables = fits;
    }

    after_settle_fits :
        (name : Str) (r : Loaded)
        → Fits name r
        → CallFits owner t.next_lock name (after_settle name r)
    after_settle_fits name (inl e) fits = (refl, tt)
    after_settle_fits name (inr doc) fits = (refl, fits)

    held_fits : (lock : ℕ) (busy : Bool) → TablesFit owner (set_held lock busy t)
    held_fits lock busy = record { documents = h.documents; loading = h.loading; locks = h.locks }

    raced-Fits :
        (name : Str) (lock : ℕ) (o : Option Loaded)
        → owner lock ≡ name
        → ((r : Loaded) → o ≡ some r → Fits (owner lock) r)
        → TurnFits owner name t (raced name lock t o).0 (raced name lock t o).1
    raced-Fits name lock none own given = same_owner name _ _ refl refl (held_fits lock true)
    raced-Fits name lock (some result) own given =
        stays owner name t _ h (rw (← own) (given result refl))

    pub advance_fits :
        (wanted : Str) (r : Loaded) (c : Call)
        → CallFits owner t.next_lock wanted c
        → ((name : Str) (lock doc : ℕ) → c ≡ load name lock → r ≡ inr doc → Given name doc)
        → TurnFits owner wanted t (advance r c t).0 (advance r c t).1
    unfolding advance
    advance_fits wanted r (check name) fits gives = rw (← fits) (
        stays owner name t _ h (elim (Bool-cases (is_blank name)) [
          | inl blank ↦ rw blank tt
          | inr named ↦ rw named (
              found_fits owner t.next_lock name (seek name) (get name t.documents) refl
                (known name))
        ]))
    advance_fits wanted r (seek name) fits gives =
        rw (← fits) (stays owner name t _ h (sought_fits name (get name t.loading) refl))
    advance_fits wanted r (await_other name lock) (same, locks) gives =
        elim (Bool-cases (t.held lock)) [
          | inl busy ↦ rw busy (stays owner wanted t _ h (same, locks))
          | inr free ↦
              rw (free, ← same)
                (stays owner name t _ h (locked_fits name lock (check_again name) locks.0 refl))
        ]
    advance_fits wanted r (check_again name) fits gives = rw (← fits) (
        stays owner name t _ h
          (found_fits owner t.next_lock name (start name) (get name t.documents) refl (known name)))
    advance_fits wanted r (start name) fits gives =
        rw (← fits) (begin_fits name (get name t.loading) refl)
    advance_fits wanted r (await_racer name lock) (same, locks) gives =
        elim (Bool-cases (t.held lock)) [
          | inl busy ↦ rw busy (stays owner wanted t _ h (same, locks))
          | inr free ↦
              rw (free, ← same) (raced-Fits name lock (t.locks lock) locks.0 (h.locks lock))
        ]
    advance_fits wanted r (check_racer name lock) fits gives = rw (← fits) (
        same_owner name _ _ refl
          (found_fits owner t.next_lock name (returned (inl failed_concurrently))
            (get name t.documents) tt (known name))
          (held_fits lock false))
    advance_fits wanted (inl e) (load name lock) (same, locks) gives =
        stays owner wanted t _ h (same, locks, tt)
    advance_fits wanted (inr doc) (load name lock) (same, locks) gives =
        stays owner wanted t _ h (same, locks, rw (← same) (gives name lock doc refl refl))
    advance_fits wanted r (settle name lock result) (same, locks, fits) gives =
        let own : Fits name result = rw same fits in
        elim (Bool-cases (t.held lock)) [
          | inl busy ↦ rw busy (stays owner wanted t _ h (same, locks, fits))
          | inr free ↦
              rw (free, ← same)
                (same_owner name _ _ refl (after_settle_fits name result own)
                  (settle-Fits name lock result locks.0 own))
        ]
    advance_fits wanted r (publish name doc) (same, given) gives =
        let own : Given name doc = rw same given in
        rw (← same) (same_owner name _ _ refl (refl, own) (publish_fits name doc own))
    advance_fits wanted r (clear name result) (same, fits) gives =
        same_owner wanted _ _ refl fits (clear_fits name)
    advance_fits wanted r (returned result) fits gives = stays owner wanted t _ h fits
