-- ===== src/Rpc/Once.antt =====
-- The endpoint of network/jsonrpc.ts over any calls and events: what becomes of each request.
use soulnet.Prelude.{
  ℕ, ◌+◌, ◌≤◌, eqb, ltb, leb, eqb_iff, String, true, not, ◌&&◌, Option, some, arith,
}
use soulnet.Prelude.{List, [], ◌∷◌, ◌++◌, if◌then◌else◌, find, filter, Bool-cases, inl, inr}
use soulnet.Prelude.{◌≡◌, refl, ◌∙◌, subst}
use soulnet.Rpc.{
  JsonRpcError, Answer, rejected, Pending, Effect, settled, JsonRpcEndpoint, emit, settle,
  reject_all, closed_error, close_text, close,
}

module _ {ℓ} {A : Type ℓ} (key : A → ℕ) where
  abbrev pub how_many : ℕ → List A → ℕ
  how_many j [] = 0
  how_many j (x ∷ xs) = let rest = how_many j xs in if eqb (key x) j then rest + 1 else rest

  pub how_many-append :
      (j : ℕ) (xs ys : List A) → how_many j (xs ++ ys) ≡ how_many j xs + how_many j ys
  how_many-append j [] ys = omega arith
  how_many-append j (x ∷ xs) ys = ground (arith, how_many-append j xs ys)

  how_many-drop :
      (id j : ℕ) (xs : List A)
      → how_many j (filter (λ x. not (eqb (key x) id)) xs) ≡ (if eqb id j then 0 else how_many j xs)
  how_many-drop id j [] = ground arith
  how_many-drop id j (x ∷ xs) = ground (arith, how_many-drop id j xs)

  pub how_many-find :
      (id : ℕ) (xs : List A) (x : A)
      → find (λ y. eqb (key y) id) xs ≡ some x
      → (1 ≤ how_many id xs) × (key x ≡ id)
  how_many-find id [] x h = absurd (ground arith)
  how_many-find id (y ∷ ys) x h = elim (Bool-cases (eqb (key y) id)) [
    | inl same ↦ ground (arith, h)
    | inr other ↦
        let behind : find (λ z. eqb (key z) id) ys ≡ some x =
          subst (λ b. (if b then some y else find (λ z. eqb (key z) id) ys) ≡ some x) other h in
        ground (arith, how_many-find id ys x behind)
  ]

abbrev tick : ℕ → Effect → ℕ
tick j (settled id _) = if eqb id j then 1 else 0
tick j _ = 0

-- how often a promise was settled
abbrev pub settles : ℕ → List Effect → ℕ
settles j [] = 0
settles j (e ∷ es) = tick j e + settles j es

abbrev pub waiting : ℕ → List Pending → ℕ
waiting = how_many (λ (p : Pending). p.id)

abbrev pub timed : ℕ → List (ℕ × String) → ℕ
timed = how_many (λ (t : ℕ × String). t.0)

waiting-drop :
    (id j : ℕ) (l : List Pending)
    → waiting j (filter (λ p. not (eqb p.id id)) l) ≡ (if eqb id j then 0 else waiting j l)
waiting-drop = how_many-drop (λ (p : Pending). p.id)

timed-drop :
    (id j : ℕ) (l : List (ℕ × String))
    → timed j (filter (λ t. not (eqb t.0 id)) l) ≡ (if eqb id j then 0 else timed j l)
timed-drop = how_many-drop (λ (t : ℕ × String). t.0)

-- 1 for the ids that were given out, 0 for the others
abbrev pub issued : ℕ → ℕ → ℕ
issued id next = if leb 1 id && ltb id next then 1 else 0

pub record IsSound (s : JsonRpcEndpoint) : Type 0 where
  pub once : (id : ℕ) → settles id s.trace + waiting id s.pending ≡ issued id s.next_id
  pub for_pending : (id : ℕ) → timed id s.timers ≤ waiting id s.pending
  pub shut : s.closed ≡ true → s.pending ≡ []
  pub from_one : 1 ≤ s.next_id

pub settle-IsSound :
    (id : ℕ) (answer : Answer) (s : JsonRpcEndpoint)
    → IsSound s
    → 1 ≤ waiting id s.pending
    → IsSound (settle id answer s)
unfolding settle
settle-IsSound id answer s sound some_wait = record {
  once = λ j. elim (Bool-cases (eqb id j)) [
    | inl same ↦
        let waits : 1 ≤ waiting j s.pending =
          subst (λ i. 1 ≤ waiting i s.pending) ((eqb_iff id j).0 same) some_wait in
        rw (waiting-drop id j, same) (ground (arith, sound.once j, waits))
    | inr other ↦ rw (waiting-drop id j, other) (ground (arith, sound.once j))
  ];
  for_pending = λ j. rw (waiting-drop id j, timed-drop id j) (ground (arith, sound.for_pending j));
  shut = λ closed. rw (sound.shut closed);
  from_one = sound.from_one;
}

pub emit-IsSound :
    (e : Effect) (s : JsonRpcEndpoint) → ((id : ℕ) → tick id e ≡ 0) → IsSound s → IsSound (emit e s)
emit-IsSound e s quiet sound = record {
  once = λ j. rw (quiet j) (omega (arith, sound.once j));
  for_pending = sound.for_pending;
  shut = sound.shut;
  from_one = sound.from_one;
}

-- Every entry of a list is settled once, whether it is still pending or not.
settles-reject_all :
    (j : ℕ) (entries : List Pending) (reason : JsonRpcError) (s : JsonRpcEndpoint)
    → settles j (reject_all entries reason s).trace ≡ settles j s.trace + waiting j entries
unfolding reject_all settle
settles-reject_all j [] reason s = omega arith
settles-reject_all j (p ∷ entries) reason s =
    settles-reject_all j entries reason (settle p.id (rejected reason) s) ∙ ground arith

-- No timer is left for an entry of the list, and none is new.
timed-reject_all :
    (j : ℕ) (entries : List Pending) (reason : JsonRpcError) (s : JsonRpcEndpoint)
    → timed j s.timers ≤ waiting j entries
    → timed j (reject_all entries reason s).timers ≡ 0
unfolding reject_all settle
timed-reject_all j [] reason s h = omega arith
timed-reject_all j (p ∷ entries) reason s h =
    timed-reject_all j entries reason (settle p.id (rejected reason) s)
      (rw (timed-drop p.id j) (ground (arith, h)))

reject_all-next_id :
    (entries : List Pending) (reason : JsonRpcError) (s : JsonRpcEndpoint)
    → (reject_all entries reason s).next_id ≡ s.next_id
unfolding reject_all settle
reject_all-next_id [] reason s = refl
reject_all-next_id (p ∷ entries) reason s =
    reject_all-next_id entries reason (settle p.id (rejected reason) s)

pub close-IsSound :
    (error : Option String) (s : JsonRpcEndpoint) → IsSound s → IsSound (close error s)
unfolding close
close-IsSound error s sound = elim (Bool-cases s.closed) [
  | inl closed ↦ simp closed sound
  | inr live ↦
      let reason = closed_error (close_text error) in
      let s' = record s { closed = true } in
      simp live (record {
        once = λ j.
            rw (settles-reject_all j s.pending reason s', reject_all-next_id s.pending reason s')
              (omega (arith, sound.once j));
        for_pending =
            λ j. rw (timed-reject_all j s.pending reason s' (sound.for_pending j)) (omega arith);
        shut = λ _. refl;
        from_one = rw (reject_all-next_id s.pending reason s') sound.from_one;
      })
]

reject_all-closed :
    (entries : List Pending) (reason : JsonRpcError) (s : JsonRpcEndpoint)
    → (reject_all entries reason s).closed ≡ s.closed
unfolding reject_all settle
reject_all-closed [] reason s = refl
reject_all-closed (p ∷ entries) reason s =
    reject_all-closed entries reason (settle p.id (rejected reason) s)

pub close-closed :
    (error : Option String) (s : JsonRpcEndpoint)
    → ((close error s).closed ≡ true) × ((close error s).next_id ≡ s.next_id)
unfolding close
close-closed error s = elim (Bool-cases s.closed) [
  | inl closed ↦ simp closed (refl, refl)
  | inr live ↦
      let reason = closed_error (close_text error) in
      let s' = record s { closed = true } in
      simp live (reject_all-closed s.pending reason s', reject_all-next_id s.pending reason s')
]
