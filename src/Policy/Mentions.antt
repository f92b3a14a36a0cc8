-- ===== src/Policy/Mentions.antt =====
-- dsh/packages/dsh/src/policy.ts, `mentionsMe` and `mentionsAgent`. A text is its list of UTF-16
-- code units. `toLowerCase` is the host's, a table of Unicode: a parameter, and nothing is assumed
-- of it. `trim` is written out.
pub mod Occurs
use soulnet.Prelude.{ℕ, zero, suc, ◌+◌, ◌-◌, Bool, true, false, not, ◌&&◌, ◌||◌}
use soulnet.Prelude.{Option, none, some, List, [], ◌∷◌, reverse}
use soulnet.Prelude.{if◌then◌else◌, leb, eqb, length, drop, get_elem?}

abbrev pub Text : Type 0
Text = List ℕ

-- `/[a-z0-9_]/`, false on undefined
abbrev pub is_ascii_word_char : Option ℕ → Bool
is_ascii_word_char none = false
is_ascii_word_char (some c) = leb b'a' c && leb c b'z' || leb b'0' c && leb c b'9' || eqb c b'_'

abbrev pub prefix_of : Text → Text → Bool
prefix_of [] s = true
prefix_of (c ∷ t) [] = false
prefix_of (c ∷ t) (d ∷ s) = eqb c d && prefix_of t s

-- The first place at which the token stands in a text whose first place is `at`.
search : Text → ℕ → Text → Option ℕ
search token at [] = if prefix_of token [] then some at else none
search token at (c ∷ s) =
    let later = search token (at + 1) s in if prefix_of token (c ∷ s) then some at else later

-- `body.indexOf(token, from)`, for a token that is not empty
index_of : Text → Text → ℕ → Option ℕ
index_of body token from = search token from (drop from body)

-- The body of the loop: the token is no mention if a boundary is needed and a word goes on.
is_mention_at : Text → Text → Bool → ℕ → Bool
is_mention_at body token needs_boundary at =
    not needs_boundary || not (is_ascii_word_char (get_elem? body (at + length token)))

-- The loop over the places of the token, on fuel.
mention_loop : ℕ → Text → Text → Bool → Option ℕ → Bool
mention_loop fuel body token needs_boundary none = false
mention_loop zero body token needs_boundary (some at) = false
mention_loop (suc fuel) body token needs_boundary (some at) =
    let rest = mention_loop fuel body token needs_boundary (index_of body token (at + 1)) in
    if is_mention_at body token needs_boundary at then true else rest

abbrev pub token_of : Text → Text
token_of name = b'@' ∷ name

abbrev pub needs_boundary : Text → Bool
needs_boundary name = is_ascii_word_char (get_elem? name (length name - 1))

unfoldable pub has_mention_token : Text → Text → Bool
unfolding mention_loop index_of search is_mention_at
has_mention_token body name =
    mention_loop (length body + 1) body (token_of name) (needs_boundary name)
      (index_of body (token_of name) 0)

-- White space and line ends of ECMAScript, as code units.
is_space : ℕ → Bool
is_space c =
    leb 9 c && leb c 13
    || eqb c 32
    || eqb c 160
    || eqb c 0x1680
    || leb 0x2000 c && leb c 0x200a
    || eqb c 0x2028
    || eqb c 0x2029
    || eqb c 0x202f
    || eqb c 0x205f
    || eqb c 0x3000
    || eqb c 0xfeff

trim_start : Text → Text
trim_start [] = []
trim_start (c ∷ s) = let rest = trim_start s in if is_space c then rest else c ∷ s

unfoldable pub trim : Text → Text
unfolding trim_start is_space
trim s = reverse (trim_start (reverse (trim_start s)))

abbrev pub is_empty : Text → Bool
is_empty [] = true
is_empty (_ ∷ _) = false

abbrev pub all_token : Text
all_token = b'a' ∷ b'l' ∷ b'l' ∷ []

module _ (to_lower_case : Text → Text) where
  unfoldable pub mentions_me : Text → Text → Bool
  mentions_me body name =
      let lower = to_lower_case body in
      let n = to_lower_case (trim name) in
      if has_mention_token lower all_token
      then true
      else (if is_empty n then false else has_mention_token lower n)

  unfoldable pub mentions_agent : Text → Text → Bool
  mentions_agent body name =
      let n = to_lower_case (trim name) in
      if is_empty n then false else has_mention_token (to_lower_case body) n
