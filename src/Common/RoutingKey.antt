-- ===== src/Common/RoutingKey.antt =====
-- hocuspocu-rs-common/src/routing_key.rs: the address of a document, with a session behind a NUL.
-- Connections and sockets cut their addresses by the same `find`.
use hocuspocu_rs.Base.{
  ℕ, ◌≡◌, ◌≢◌, refl, ap, [], ◌∷◌, ◌++◌, Option, none, some, Str, All, arith, ◌==◌, ==_iff,
  if◌then◌else◌, Bool-cases, inl, inr,
}

unfoldable pub make_routing_key : Str → Str → Str
make_routing_key document_name session_id = document_name ++ (0 ∷ session_id)

-- `key.find('\0')`, with the text before and behind the place.
abbrev before : ℕ → Str × Option Str → Str × Option Str
before b (name, session) = (b ∷ name, session)

unfoldable pub parse_routing_key : Str → Str × Option Str
parse_routing_key [] = ([], none)
parse_routing_key (b ∷ key) = if b == 0 then ([], some key) else before b (parse_routing_key key)

-- A name without a NUL byte.
abbrev pub HasNoNul : Str → Type 0
HasNoNul = All (λ b. b ≢ 0)

-- A name without NUL and any session come back from the key that joins them.
parse-make_routing_key :
    (name session : Str)
    → HasNoNul name
    → parse_routing_key (make_routing_key name session) ≡ (name, some session)
unfolding parse_routing_key make_routing_key
parse-make_routing_key [] session h = refl
parse-make_routing_key (b ∷ name) session h =
    ground (arith, parse-make_routing_key name session h.1)

-- The key is what its parts make: with a session they are joined again, and without one the key is
-- the name. The name has no NUL in either case.
abbrev Rebuilds : Str → Str × Option Str → Type 0
Rebuilds key (name, none) = (key ≡ name) × HasNoNul name
Rebuilds key (name, some session) = (key ≡ make_routing_key name session) × HasNoNul name

Rebuilds-before :
    (b : ℕ) (key : Str) (parts : Str × Option Str)
    → b ≢ 0
    → Rebuilds key parts
    → Rebuilds (b ∷ key) (before b parts)
unfolding make_routing_key
Rebuilds-before b key (name, none) h r = (ap (◌∷◌ b) r.0, (h, r.1))
Rebuilds-before b key (name, some session) h r = (ap (◌∷◌ b) r.0, (h, r.1))

-- Whatever the key, its parsed parts rebuild it, and the name part has no NUL.
parse_routing_key-Rebuilds : (key : Str) → Rebuilds key (parse_routing_key key)
unfolding parse_routing_key make_routing_key
parse_routing_key-Rebuilds [] = (refl, tt)
parse_routing_key-Rebuilds (b ∷ key) = elim (Bool-cases (b == 0)) [
  | inl nul ↦ rw nul (let z : b ≡ 0 = (==_iff b 0).0 nul in rw z (refl, tt))
  | inr other ↦ rw other (Rebuilds-before b key _ (ground arith) (parse_routing_key-Rebuilds key))
]
