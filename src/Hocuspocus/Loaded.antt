-- ===== src/Hocuspocus/Loaded.antt =====
-- What `load_document` makes of the answers of the extensions.
use hocuspocu_rs.Base.{
  ℕ, ◌≡◌, ◌⊎◌, ◌∙◌, inl, inr, refl, sym, ap, Bool, true, false, List, [], ◌∷◌, ◌++◌, Option, none,
  some, Str, Bytes, All, ==_iff, ◌==◌,
}
use hocuspocu_rs.Base.Outcome.{Outcome, ok, err, panic}
use hocuspocu_rs.Document
use hocuspocu_rs.Document.{Document, apply_update, committed, apply_decoded}
use hocuspocu_rs.Hocuspocus.Opening.{LoadAnswer, after_update, load_with, after_load, load_document}
use hocuspocu_rs.Hocuspocus.Storing.{Hocuspocus}
use hocuspocu_rs.Yrs.{Yrs}

abbrev pub IsAccepted : LoadAnswer → Type 0
IsAccepted answer = (loaded : Option Bytes) × (answer ≡ inr loaded)

-- The error is that of the first extension that fails.
pub record FailsWith (e : Str) (answers : List LoadAnswer) : Type 0 where
  pub before : List LoadAnswer
  pub behind : List LoadAnswer
  pub parts : answers ≡ before ++ (inl e ∷ behind)
  pub accepted : All IsAccepted before

module _ (y : Yrs) where
  open y use {Doc, doc_new, decode_update}

  -- The content that an update leaves; as it was if the update does not decode.
  abbrev pub content_of : Outcome Str (Unit {0}) × Doc × Option Bytes → Doc
  content_of (_, content, _) = content

  abbrev pub with_decoded : Outcome Str y.Update → Doc → Doc
  with_decoded (ok u) before = content_of (y.apply before u)
  with_decoded (err _) before = before
  with_decoded panic before = before

  -- All the updates that the extensions give, in their order.
  pub merged : List LoadAnswer → Doc → Doc
  merged [] before = before
  merged (inr (some update) ∷ answers) before =
      merged answers (with_decoded (decode_update update) before)
  merged (_ ∷ answers) before = merged answers before

  -- The document has this content, and is otherwise as it was; it is not observed.
  record HasContent (content : Doc) (d d' : Document y) : Type 0 where
    held : d'.doc ≡ content
    updates : d'.updates ≡ d.updates
    unobserved : d'.has_update_subscription ≡ false
    connections : d'.connections ≡ d.connections
    name : d'.name ≡ d.name

  abbrev Goes : Outcome Str (Unit {0}) × Document y → Type 0
  Goes r = (rest : Outcome Str (Unit {0}) × Document y) → after_update y r rest ≡ rest

  abbrev Stops : Outcome Str (Unit {0}) × Document y → Type 0
  Stops r = (rest : Outcome Str (Unit {0}) × Document y) → (after_update y r rest).0 ≡ panic

  committed_content :
      (c : Outcome Str (Unit {0}) × Doc × Option Bytes) (d : Document y)
      → d.has_update_subscription ≡ false
      → HasContent (content_of c) d (committed y c d).1
  committed_content (r, content, none) d quiet = record {
    held = refl;
    updates = refl;
    unobserved = quiet;
    connections = refl;
    name = refl;
  }
  committed_content (r, content, some update) d quiet = record {
    held = refl;
    updates = rw quiet refl;
    unobserved = quiet;
    connections = refl;
    name = refl;
  }

  result_cases : (r : Outcome Str (Unit {0}) × Document y) → Stops r ⊎ Goes r
  result_cases (ok _, d) = inr (λ rest. refl)
  result_cases (err e, d) = inr (λ rest. refl)
  result_cases (panic, d) = inl (λ rest. refl)

  committed_cases :
      (c : Outcome Str (Unit {0}) × Doc × Option Bytes) (d : Document y)
      → d.has_update_subscription ≡ false
      → let r = committed y c d in Stops r ⊎ (Goes r × HasContent (content_of c) d r.1)
  committed_cases c d quiet = elim (result_cases (committed y c d)) [
    | inl stops ↦ inl stops
    | inr goes ↦ inr (goes, committed_content c d quiet)
  ]

  decoded_cases :
      (u : Outcome Str y.Update) (d : Document y)
      → d.has_update_subscription ≡ false
      → let r = apply_decoded y u d in Stops r ⊎ (Goes r × HasContent (with_decoded u d.doc) d r.1)
  decoded_cases (ok u) d quiet = committed_cases (y.apply d.doc u) d quiet
  decoded_cases (err e) d quiet = inr (
    λ rest. refl,
    record { held = refl; updates = refl; unobserved = quiet; connections = refl; name = refl },
  )
  decoded_cases panic d quiet = inl (λ rest. refl)

  -- How a load may end: all answers accepted, an error, or a panic.
  Ends : List LoadAnswer → Document y → Outcome Str (Unit {0}) × Document y → Type 0
  Ends answers d r =
      ((r.0 ≡ ok tt) × All IsAccepted answers × HasContent (merged answers d.doc) d r.1)
      ⊎ (((e : Str) × (r.0 ≡ err e) × FailsWith e answers) ⊎ (r.0 ≡ panic))

  onward :
      (content : Doc) (d d' d'' : Document y)
      → HasContent content d' d''
      → (d'.updates ≡ d.updates)
      → (d'.connections ≡ d.connections)
      → (d'.name ≡ d.name)
      → HasContent content d d''
  onward content d d' d'' h u c n = record {
    held = h.held;
    updates = h.updates ∙ u;
    unobserved = h.unobserved;
    connections = h.connections ∙ c;
    name = h.name ∙ n;
  }

  one_more :
      (loaded : Option Bytes) (answers : List LoadAnswer) (d d' : Document y)
      (r : Outcome Str (Unit {0}) × Document y)
      → merged (inr loaded ∷ answers) d.doc ≡ merged answers d'.doc
      → (d'.updates ≡ d.updates)
      → (d'.connections ≡ d.connections)
      → (d'.name ≡ d.name)
      → Ends answers d' r
      → Ends (inr loaded ∷ answers) d r
  unfolding Ends
  one_more loaded answers d d' r same u c n (inl (e, accepted, h)) =
      inl (e, ((loaded, refl), accepted), rw same (onward (merged answers d'.doc) d d' r.1 h u c n))
  one_more loaded answers d d' r same u c n (inr (inl (e, error, f))) = inr (
      inl (
        e,
        error,
        record {
          before = inr loaded ∷ f.before;
          behind = f.behind;
          parts = ap (◌∷◌ (inr loaded)) f.parts;
          accepted = ((loaded, refl), f.accepted);
        },
      ))
  one_more loaded answers d d' r same u c n (inr (inr p)) = inr (inr p)

  load_with_cases :
      (answers : List LoadAnswer) (d : Document y)
      → d.has_update_subscription ≡ false
      → Ends answers d (load_with y answers d)
  unfolding Ends load_with merged apply_update
  load_with_cases [] d quiet = inl (
    refl,
    tt,
    record { held = refl; updates = refl; unobserved = quiet; connections = refl; name = refl },
  )
  load_with_cases (inl e ∷ answers) d quiet =
      inr (inl (e, refl, record { before = []; behind = answers; parts = refl; accepted = tt }))
  load_with_cases (inr none ∷ answers) d quiet =
      one_more none answers d d (load_with y answers d) refl refl refl refl
        (load_with_cases answers d quiet)
  load_with_cases (inr (some update) ∷ answers) d quiet =
      let r = apply_update y update d in
      let rest = load_with y answers r.1 in
      elim (decoded_cases (decode_update update) d quiet) [
        | inl stops ↦ inr (inr (stops rest))
        | inr (goes, h) ↦ rw (goes rest) (
            one_more (some update) answers d r.1 rest (ap (merged answers) (sym h.held)) h.updates
              h.connections h.name (load_with_cases answers r.1 h.unobserved))
      ]

  -- A document as a load leaves it.
  pub record IsReady (name : Str) (answers : List LoadAnswer) (d : Document y) : Type 0 where
    pub held : d.doc ≡ merged answers doc_new
    pub ready : d.is_loading ≡ false
    pub observed : d.has_update_subscription ≡ true
    pub none_waiting : d.updates ≡ []
    pub unconnected : d.connections ≡ []
    pub named : d.name ≡ name

  module _ (hook : Hocuspocus y → Bool × Hocuspocus y) (doc : ℕ) (name : Str)
      (answers : List LoadAnswer) (s : Hocuspocus y) where
    abbrev pub IsLoadEnd : Outcome Str ℕ × Hocuspocus y → Type 0
    IsLoadEnd r =
        ((r.0 ≡ ok doc) × All IsAccepted answers × IsReady name answers (r.1.docs doc))
        ⊎ (((e : Str) × (r.0 ≡ err e) × FailsWith e answers) ⊎ ((r.0 ≡ panic) × (r.1 ≡ s)))

    by_end :
        (r : Outcome Str (Unit {0}) × Document y)
        → Ends answers (Document.new y name) r
        → IsLoadEnd (after_load y hook doc name r s)
    unfolding Ends Document.new
    by_end (ok done, d) (inl (e, accepted, h)) =
        let own : (doc == doc) ≡ true = (==_iff doc doc).1 refl in
        inl (
          refl,
          accepted,
          rw own (record {
            held = h.held;
            ready = refl;
            observed = refl;
            none_waiting = h.updates;
            unconnected = h.connections;
            named = h.name;
          }),
        )
    by_end (ok done, d) (inr (inl (e, error, f))) = cc
    by_end (ok done, d) (inr (inr p)) = cc
    by_end (err e, d) (inl (p, _, _)) = cc
    by_end (err e, d) (inr (inl (e', error, f))) =
        let same : e ≡ e' = cc in inr (inl (e', ap err same, f))
    by_end (err e, d) (inr (inr p)) = cc
    by_end (panic, d) _ = inr (inr (refl, refl))

    -- A load either succeeds, if every extension accepts: then the new document holds all the updates
    -- that they gave, in their order, less those that do not decode, and of one that does not apply
    -- what yrs has put in, it is no longer loading, is observed, and has no connection; none of these
    -- updates is taken for a change. Or it ends with the error of the first extension that fails; or
    -- with a panic of yrs.
    pub load_document_cases : IsLoadEnd (load_document y hook doc name answers s)
    unfolding load_document Document.new
    load_document_cases =
        by_end (load_with y answers (Document.new y name))
          (load_with_cases answers (Document.new y name) refl)
