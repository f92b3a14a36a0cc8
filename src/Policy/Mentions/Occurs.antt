-- ===== src/Policy/Mentions/Occurs.antt =====
-- What the search for `@name` finds, against a description of a mention that names no position.
use soulnet.Prelude.{ℕ, zero, suc, ◌+◌, ◌-◌, ◌≤◌, ◌<◌, Bool, true, false}
use soulnet.Prelude.{some, [], ◌∷◌, ◌++◌, ◌≡◌, ◌≢◌, ◌↔◌, ◌⊎◌, inl, inr, refl, sym, ap, ◌∙◌}
use soulnet.Prelude.{arith, length, drop, take, get_elem?, Bool-cases, Option-cases}
use soulnet.Prelude.{drop-drop, drop-nil, take-append-drop, drop-append, get_elem?-drop}
use soulnet.Policy.Mentions.{
  Text, is_ascii_word_char, prefix_of, search, index_of, is_mention_at, mention_loop, token_of,
  needs_boundary, has_mention_token, trim, all_token, mentions_me, mentions_agent,
}

prefix_of_sound : (t s : Text) → prefix_of t s ≡ true → s ≡ t ++ drop (length t) s
prefix_of_sound [] s h = refl
prefix_of_sound (c ∷ t) [] h = cc
prefix_of_sound (c ∷ t) (d ∷ s) h = ground (arith, prefix_of_sound t s)

prefix_of-append : (t s : Text) → prefix_of t (t ++ s) ≡ true
prefix_of-append [] s = refl
prefix_of-append (c ∷ t) s = ground (arith, prefix_of-append t s)

search_sound :
    (token : Text) (from : ℕ) (s : Text) (at : ℕ)
    → search token from s ≡ some at
    → (k : ℕ) × (at ≡ from + k) × (prefix_of token (drop k s) ≡ true)
unfolding search
search_sound token from [] at h = (0, ground arith, ground arith)
search_sound token from (c ∷ s) at h = elim (Bool-cases (prefix_of token (c ∷ s))) [
  | inl here ↦ (0, ground arith, here)
  | inr there ↦
      let (k, e, p) = search_sound token (from + 1) s at (ground arith) in (suc k, omega arith, p)
]

-- The search stops at the token's first place.
search_least :
    (token : Text) (from : ℕ) (s : Text) (k : ℕ)
    → prefix_of token (drop k s) ≡ true
    → (j : ℕ) × (search token from s ≡ some (from + j)) × (j ≤ k)
unfolding search
search_least token from [] zero h = (0, ground arith, omega arith)
search_least token from [] (suc k) h = (0, ground arith, omega arith)
search_least token from (c ∷ s) zero h = (0, ground arith, omega arith)
search_least token from (c ∷ s) (suc k) h = elim (Bool-cases (prefix_of token (c ∷ s))) [
  | inl here ↦ (0, ground arith, omega arith)
  | inr there ↦
      let (j, e, le) = search_least token (from + 1) s k h in (suc j, ground arith, omega arith)
]

At-lt :
    (name body : Text) (k : ℕ) → prefix_of (token_of name) (drop k body) ≡ true → k < length body
At-lt name [] k h = let e : false ≡ true = rw (drop-nil k) at h in cc
At-lt name (c ∷ body) zero h = omega arith
At-lt name (c ∷ body) (suc k) h = omega (arith, At-lt name body k h)

module _ (body name : Text) where
  -- The token stands at this place.
  abbrev At : ℕ → Type 0
  At at = prefix_of (token_of name) (drop at body) ≡ true

  index_of_sound :
      (from at : ℕ) → index_of body (token_of name) from ≡ some at → (from ≤ at) × At at
  unfolding index_of
  index_of_sound from at h =
      let (k, e, p) = search_sound (token_of name) from (drop from body) at h in
      (omega arith, rw e (rw drop-drop at p))

  index_of_least :
      (from k : ℕ)
      → from ≤ k
      → At k
      → (at : ℕ) × (index_of body (token_of name) from ≡ some at) × (from ≤ at) × (at ≤ k)
  unfolding index_of
  index_of_least from k le p =
      let e : k ≡ from + (k - from) = omega arith in
      let (j, found, least) =
        search_least (token_of name) from (drop from body) (k - from) (rw drop-drop (rw e at p)) in
      (from + j, found, omega arith, omega arith)

  module _ (boundary : Bool) where
    abbrev Hit : ℕ → Type 0
    Hit at = At at × (is_mention_at body (token_of name) boundary at ≡ true)

    mention_loop_sound :
        (fuel from : ℕ)
        → mention_loop fuel body (token_of name) boundary (index_of body (token_of name) from)
          ≡ true
        → (at : ℕ) × Hit at
    unfolding mention_loop
    mention_loop_sound zero from h = elim (Option-cases (index_of body (token_of name) from)) [
      | inl e ↦ ground arith
      | inr (at, e) ↦ ground arith
    ]
    mention_loop_sound (suc fuel) from h =
        elim (Option-cases (index_of body (token_of name) from)) [
          | inl e ↦ ground arith
          | inr (at, e) ↦ elim (Bool-cases (is_mention_at body (token_of name) boundary at)) [
            | inl hit ↦ (at, ((index_of_sound from at e).1, hit))
            | inr miss ↦ mention_loop_sound fuel (at + 1) (ground arith)
          ]
        ]

    mention_loop_complete :
        (fuel from k : ℕ)
        → from ≤ k
        → Hit k
        → length body < from + fuel
        → mention_loop fuel body (token_of name) boundary (index_of body (token_of name) from)
          ≡ true
    unfolding mention_loop
    mention_loop_complete zero from k le hit enough =
        absurd (omega (arith, At-lt name body k hit.0))
    mention_loop_complete (suc fuel) from k le hit enough =
        let (at, found, ge, least) = index_of_least from k le hit.0 in
        elim (Bool-cases (is_mention_at body (token_of name) boundary at)) [
          | inl here ↦ ground arith
          | inr miss ↦
              let differ : at ≢ k = ground arith in
              let later = mention_loop_complete fuel (at + 1) k (omega arith) hit (omega arith) in
              ground arith
        ]

get_elem?-drop-drop :
    (k n : ℕ) (body : Text) → get_elem? (drop n (drop k body)) 0 ≡ get_elem? body (k + n)
get_elem?-drop-drop k n body =
    let e : n + 0 ≡ n = omega arith in
    get_elem?-drop n 0 (drop k body) ∙ ap (get_elem? (drop k body)) e ∙ get_elem?-drop k n body

-- The body holds `@name`, and where the name ends in an ASCII word character no such character
-- follows.
pub Mentions : Text → Text → Type 0
Mentions body name =
    (before after : Text) × (body ≡ before ++ (token_of name ++ after))
    × ((needs_boundary name ≡ false) ⊎ (is_ascii_word_char (get_elem? after 0) ≡ false))

Hit→Mentions :
    (body name : Text) (k : ℕ) → Hit body name (needs_boundary name) k → Mentions body name
unfolding Mentions is_mention_at
Hit→Mentions body name k (at, ends) =
    let rest = drop k body in
    let after = drop (length (token_of name)) rest in
    let behind : get_elem? after 0 ≡ get_elem? body (k + length (token_of name)) =
      get_elem?-drop-drop k _ body in
    (
      take k body,
      after,
      sym (take-append-drop k body)
          ∙ ap (λ l. take k body ++ l) (prefix_of_sound (token_of name) rest at),
      ground arith,
    )

Mentions→Hit :
    (body name : Text) → Mentions body name → (k : ℕ) × Hit body name (needs_boundary name) k
unfolding Mentions is_mention_at
Mentions→Hit body name (before, after, split, ends) =
    let k = length before in
    let rest : drop k body ≡ token_of name ++ after = rw split (drop-append before _) in
    let same : drop (length (token_of name)) (drop k body) ≡ after =
      rw rest (drop-append (token_of name) after) in
    let behind : get_elem? after 0 ≡ get_elem? body (k + length (token_of name)) =
      sym (ap (λ l. get_elem? l 0) same) ∙ get_elem?-drop-drop k _ body in
    (k, (rw rest (prefix_of-append (token_of name) after), ground arith))

has_mention_token_iff :
    (body name : Text) → (has_mention_token body name ≡ true) ↔ Mentions body name
unfolding has_mention_token
has_mention_token_iff body name = (
  λ h.
      let (k, hit) = mention_loop_sound body name (needs_boundary name) (length body + 1) 0 h in
      Hit→Mentions body name k hit,
  λ m.
      let (k, hit) = Mentions→Hit body name m in
      mention_loop_complete body name (needs_boundary name) (length body + 1) 0 k (omega arith) hit
        (omega arith),
)

module _ (to_lower_case : Text → Text) where
  -- `mentionsMe` answers true exactly when the lower-cased body holds `@all` or `@name`, for the
  -- trimmed and lower-cased name if that is not empty, as a mention: what ends in an ASCII word
  -- character is not followed by another one. The search for it always ends.
  pub mentions_me_iff :
      (body name : Text)
      → (mentions_me to_lower_case body name ≡ true) ↔ (
          Mentions (to_lower_case body) all_token
          ⊎ (to_lower_case (trim name) ≢ [])
            × Mentions (to_lower_case body) (to_lower_case (trim name)))
  unfolding mentions_me
  mentions_me_iff body name = ground (
    arith,
    has_mention_token_iff (to_lower_case body) all_token,
    has_mention_token_iff (to_lower_case body) (to_lower_case (trim name)),
  )

  -- `mentionsAgent` does so for the name alone: `@all` commands no agent.
  pub mentions_agent_iff :
      (body name : Text)
      → (mentions_agent to_lower_case body name ≡ true) ↔ (
          (to_lower_case (trim name) ≢ [])
          × Mentions (to_lower_case body) (to_lower_case (trim name)))
  unfolding mentions_agent
  mentions_agent_iff body name =
      ground (arith, has_mention_token_iff (to_lower_case body) (to_lower_case (trim name)))
