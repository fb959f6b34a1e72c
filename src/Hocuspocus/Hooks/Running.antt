-- ===== src/Hocuspocus/Hooks/Running.antt =====
-- What a run of the extensions calls and returns.
use hocuspocu_rs.Base.{
  ℕ, ◌≡◌, ◌⊎◌, refl, ap, subst, or_else, inl, inr, List, [], ◌∷◌, ◌++◌, map, Option, none, some,
  Str, All,
}
use hocuspocu_rs.Hocuspocus.Hooks.{
  Hook, Extension, Answer, Ran, run_all, run_last, latest, calling, hooks, on_connect,
  on_authenticate, on_token_sync, on_load_document,
}

abbrev pub name_of : Extension → ℕ
name_of e = e.name

-- The extension does not fail.
abbrev pub Accepts : Hook → Extension → Type 0
Accepts hook e = (value : Option ℕ) × (e.answer hook ≡ inr value)

-- The extensions called are all those before the first that fails, and that one; its error is the
-- result.
pub record FailsAt (hook : Hook) (es : List Extension) (r : Ran) : Type 0 where
  pub before : List Extension
  pub failing : Extension
  pub behind : List Extension
  pub reason : Str
  pub parts : es ≡ before ++ (failing ∷ behind)
  pub accepted : All (Accepts hook) before
  pub fails : failing.answer hook ≡ inl reason
  pub called : r.called ≡ map name_of (before ++ (failing ∷ []))
  pub result : r.result ≡ inl reason

-- All are called, and none fails.
pub record Passes (hook : Hook) (es : List Extension) (r : Ran) (value : Option ℕ) : Type 0 where
  pub accepted : All (Accepts hook) es
  pub called : r.called ≡ map name_of es
  pub result : r.result ≡ inr value

or_else-none : (o : Option ℕ) → or_else o none ≡ o
or_else-none none = refl
or_else-none (some v) = refl

-- What an extension gives; one that fails gives nothing.
abbrev pub given : Answer → Option ℕ
given (inl reason) = none
given (inr value) = value

-- The last value that an extension gives: that of the last of them, or of those before it.
pub last_value : Hook → List Extension → Option ℕ
last_value hook [] = none
last_value hook (e ∷ es) = or_else (last_value hook es) (given (e.answer hook))

FailsAt-cons :
    (hook : Hook) (e : Extension) (es : List Extension) (value : Option ℕ) (r : Ran)
    → e.answer hook ≡ inr value
    → FailsAt hook es r
    → FailsAt hook (e ∷ es) (calling e.name r)
FailsAt-cons hook e es value r answer f = record {
  before = e ∷ f.before;
  failing = f.failing;
  behind = f.behind;
  reason = f.reason;
  parts = ap (◌∷◌ e) f.parts;
  accepted = ((value, answer), f.accepted);
  fails = f.fails;
  called = ap (◌∷◌ e.name) f.called;
  result = f.result;
}

Passes-cons :
    (hook : Hook) (e : Extension) (es : List Extension) (value result : Option ℕ) (r : Ran)
    → e.answer hook ≡ inr value
    → Passes hook es r result
    → Passes hook (e ∷ es) (calling e.name r) result
Passes-cons hook e es value result r answer p = record {
  accepted = ((value, answer), p.accepted);
  called = ap (◌∷◌ e.name) p.called;
  result = p.result;
}

FailsAt-head :
    (hook : Hook) (e : Extension) (es : List Extension) (reason : Str)
    → e.answer hook ≡ inl reason
    → FailsAt hook (e ∷ es) (record { called = e.name ∷ []; result = inl reason })
FailsAt-head hook e es reason answer = record {
  before = [];
  failing = e;
  behind = es;
  reason = reason;
  parts = refl;
  accepted = tt;
  fails = answer;
  called = refl;
  result = refl;
}

abbrev pub Runs : Hook → List Extension → Ran → Option ℕ → Type 0
Runs hook es r value = Passes hook es r value ⊎ FailsAt hook es r

Runs-cons :
    (hook : Hook) (e : Extension) (es : List Extension) (value result : Option ℕ) (r : Ran)
    → e.answer hook ≡ inr value
    → Runs hook es r result
    → Runs hook (e ∷ es) (calling e.name r) result
Runs-cons hook e es value result r answer (inl p) =
    inl (Passes-cons hook e es value result r answer p)
Runs-cons hook e es value result r answer (inr f) = inr (FailsAt-cons hook e es value r answer f)

pub split_answer :
    (a : Answer) → ((reason : Str) × (a ≡ inl reason)) ⊎ ((value : Option ℕ) × (a ≡ inr value))
split_answer (inl reason) = inl (reason, refl)
split_answer (inr value) = inr (value, refl)

run_all-Runs : (hook : Hook) (es : List Extension) → Runs hook es (run_all hook es) none
unfolding run_all
run_all-Runs hook [] = inl (record { accepted = tt; called = refl; result = refl })
run_all-Runs hook (e ∷ es) = elim (split_answer (e.answer hook)) [
  | inl (reason, answer) ↦ rw answer (inr (FailsAt-head hook e es reason answer))
  | inr (value, answer) ↦
      rw answer (Runs-cons hook e es value none (run_all hook es) answer (run_all-Runs hook es))
]

-- A value that comes later goes before one that comes earlier.
or_else-latest :
    (later last value : Option ℕ)
    → or_else later (latest last value) ≡ or_else (or_else later value) last
or_else-latest (some v) last value = refl
or_else-latest none last (some v) = refl
or_else-latest none last none = refl

run_last-Runs :
    (hook : Hook) (last : Option ℕ) (es : List Extension)
    → Runs hook es (run_last hook last es) (or_else (last_value hook es) last)
unfolding run_last last_value
run_last-Runs hook last [] = inl (record { accepted = tt; called = refl; result = refl })
run_last-Runs hook last (e ∷ es) = elim (split_answer (e.answer hook)) [
  | inl (reason, answer) ↦ rw answer (inr (FailsAt-head hook e es reason answer))
  | inr (value, answer) ↦
      rw (answer, ← or_else-latest (last_value hook es) last value)
        (Runs-cons hook e es value (or_else (last_value hook es) (latest last value))
          (run_last hook (latest last value) es) answer (run_last-Runs hook (latest last value) es))
]

-- What a run gives where none fails: for the three hooks that give a context, and the loading of
-- documents, the last value given; for the others nothing.
abbrev pub value_of : Hook → List Extension → Option ℕ
value_of on_connect es = last_value on_connect es
value_of on_authenticate es = last_value on_authenticate es
value_of on_token_sync es = last_value on_token_sync es
value_of on_load_document es = last_value on_load_document es
value_of _ es = none

no_earlier :
    (hook : Hook) (es : List Extension) → Runs hook es (run_last hook none es) (last_value hook es)
no_earlier hook es =
    subst (Runs hook es (run_last hook none es)) (or_else-none (last_value hook es))
      (run_last-Runs hook none es)

-- A run of a hook calls the extensions in their order. Either none fails, all are called, and the
-- result is the last value given, for the hooks that give one, and otherwise none; or it ends behind
-- the first that fails, whose error is the result.
pub hooks-Runs :
    (hook : Hook) (es : List Extension) → Runs hook es (hooks hook es) (value_of hook es)
unfolding hooks
hooks-Runs on_connect es = no_earlier on_connect es
hooks-Runs on_authenticate es = no_earlier on_authenticate es
hooks-Runs on_token_sync es = no_earlier on_token_sync es
hooks-Runs on_load_document es = no_earlier on_load_document es
hooks-Runs hook es = run_all-Runs hook es
