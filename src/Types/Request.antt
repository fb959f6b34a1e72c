-- ===== src/Types/Request.antt =====
-- types.rs: what is kept of the request that opened a socket.
use hocuspocu_rs.Base.{
  ℕ, ◌≡◌, ◌∙◌, refl, false, List, [], ◌∷◌, ◌++◌, Option, none, some, Bytes, Str, text, HashMap, get,
  collect, last_of, or_else, get-collect, ◌==◌, if◌then◌else◌, All,
}

pub record RequestInfo : Type 0 where
  pub headers : HashMap Str
  pub parameters : HashMap Str
  pub url : Str

-- What stands behind the first `?`.
pub query_of : Str → Option Str
query_of [] = none
query_of (b ∷ url) = let rest = query_of url in if b == 63 then some url else rest

pub or_else-none : (o : Option Str) → or_else o none ≡ o
or_else-none none = refl
or_else-none (some v) = refl

-- `parse` is `form_urlencoded::parse` of the url crate: the pairs of a query, in their order.
module _ (parse : Bytes → List (Str × Str)) where
  abbrev pub parameters_of : Option Str → HashMap Str
  parameters_of none = []
  parameters_of (some query) = collect [] (parse query)

  unfoldable pub get_parameters : Str → HashMap Str
  unfolding query_of
  get_parameters url = parameters_of (query_of url)

  unfoldable pub from_url : Str → RequestInfo
  from_url url = record { headers = []; parameters = get_parameters url; url = url }

  abbrev IsNoMark : ℕ → Type 0
  IsNoMark b = (b == 63) ≡ false

  query_of-parts :
      (before query : Str) → All IsNoMark before → query_of (before ++ (63 ∷ query)) ≡ some query
  unfolding query_of
  query_of-parts [] query none_before = refl
  query_of-parts (b ∷ before) query none_before =
      rw (none_before.0, query_of-parts before query none_before.1) refl

  -- A parameter of a URL is what the last pair of that name in its query gives.
  get_parameters-last_of :
      (before query key : Str)
      → All IsNoMark before
      → get key (get_parameters (before ++ (63 ∷ query))) ≡ last_of key (parse query)
  unfolding get_parameters get
  get_parameters-last_of before query key none_before =
      rw (query_of-parts before query none_before)
        (get-collect key [] (parse query) ∙ or_else-none (last_of key (parse query)))

-- A request made inside the program.
unfoldable pub localhost : RequestInfo
localhost = record { headers = []; parameters = []; url = text "http://localhost" }
