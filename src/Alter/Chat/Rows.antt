-- ===== src/Alter/Chat/Rows.antt =====
-- What the rounds of `chatFromEvents` do to the rows: they append, they change nothing of a row but
-- the outcome of a send and the text of the thinking, and the two maps keep the places of rows.
use soulnet.Prelude.{ℕ, zero, suc, String, Bool, true, false, Option, none, some, arith}
use soulnet.Prelude.{List, [], ◌∷◌, ◌++◌, if◌then◌else◌, length, map, get_elem?, All}
use soulnet.Prelude.{◌≡◌, refl, sym, ap, ◌∙◌, append-nil, append_assoc}
use soulnet.Prelude.Dict.{Dict, insert, All-insert}
use soulnet.Prelude.Int.{ℤ}
use soulnet.Prelude.Text.{◌⧺◌}
use soulnet.Alter.Chat.{AlterChatItem, Chat, update_at, push, amend, send, thinking}

-- What of a row never changes: of a send, all but its outcome; of the thinking, all but its text and
-- whether it still streams; and the whole of every other row.
abbrev pub lasting : AlterChatItem → AlterChatItem
lasting (send i) =
    send (record i { outcome = none; gate = none; draft_id = none; detail = none; auto = false })
lasting (thinking i) = thinking (record i { text = ""; streaming = none })
lasting i = i

abbrev pub lasting_rows : List AlterChatItem → List AlterChatItem
lasting_rows items = map lasting items

get_elem?-append :
    (xs ys : List AlterChatItem) (i : ℕ) (x : AlterChatItem)
    → get_elem? xs i ≡ some x
    → get_elem? (xs ++ ys) i ≡ some x
get_elem?-append [] ys i x h = absurd (ground (arith, h))
get_elem?-append (y ∷ xs) ys zero x h = h
get_elem?-append (y ∷ xs) ys (suc i) x h = get_elem?-append xs ys i x h

-- A row keeps its place, and what lasts of it.
pub get_elem?-grown :
    (old new more : List AlterChatItem) (i : ℕ) (x : AlterChatItem)
    → lasting_rows new ≡ lasting_rows old ++ more
    → get_elem? (lasting_rows old) i ≡ some x
    → get_elem? (lasting_rows new) i ≡ some x
get_elem?-grown old new more i x grown h =
    ap (λ l. get_elem? l i) grown ∙ get_elem?-append (lasting_rows old) more i x h

-- The row behind the others.
pub get_elem?-length :
    (old new more : List AlterChatItem) (x : AlterChatItem)
    → lasting_rows new ≡ lasting_rows old ++ x ∷ more
    → get_elem? (lasting_rows new) (length old) ≡ some x
get_elem?-length old new more x grown = ap (λ l. get_elem? l (length old)) grown ∙ at_end old
  where
    at_end :
        (items : List AlterChatItem)
        → get_elem? (lasting_rows items ++ x ∷ more) (length items) ≡ some x
    at_end [] = refl
    at_end (y ∷ ys) = at_end ys

-- The phase's index is the place of its row of thinking.
abbrev PhaseRow : List AlterChatItem → String × ℕ → Type 0
PhaseRow items (phase, i) =
    (ts : ℤ) × (get_elem? (lasting_rows items) i
      ≡ some (thinking (record { key = "think:" ⧺ phase; ts = ts; text = ""; streaming = none })))

-- Every phase of the map leads to its row.
pub record IsPhased (c : Chat) : Type 0 where
  pub rows : All (PhaseRow c.items) c.thinking_index

All-imp :
    {P Q : String × ℕ → Type 0} (m : Dict ℕ) → ((e : String × ℕ) → P e → Q e) → All P m → All Q m
All-imp [] f h = tt
All-imp (e ∷ m) f h = (f e h.0, All-imp m f h.1)

rows-grown :
    (old new more : List AlterChatItem) (m : Dict ℕ)
    → lasting_rows new ≡ lasting_rows old ++ more
    → All (PhaseRow old) m
    → All (PhaseRow new) m
rows-grown old new more m grown =
    All-imp m (λ e h. (h.0, get_elem?-grown old new more e.1 _ grown h.1))

-- From `c` to `c'` the rows keep their places and what lasts of them, new ones come behind them, the
-- phases lead to their rows, and nothing else changes but the turn.
pub record Grows (c c' : Chat) : Type 0 where
  pub more : List AlterChatItem
  pub appended : lasting_rows c'.items ≡ lasting_rows c.items ++ more
  pub phased : IsPhased c → IsPhased c'
  pub sends : c'.send_index ≡ c.send_index
  pub running : c'.running ≡ c.running

pub Grows-refl : (c : Chat) → Grows c c
Grows-refl c = record {
  more = [];
  appended = sym (append-nil (lasting_rows c.items));
  phased = λ s. s;
  sends = refl;
  running = refl;
}

pub Grows-trans : (c c' c'' : Chat) → Grows c c' → Grows c' c'' → Grows c c''
Grows-trans c c' c'' g h = record {
  more = g.more ++ h.more;
  appended =
      h.appended
      ∙ ap (λ l. l ++ h.more) g.appended
      ∙ append_assoc (lasting_rows c.items) g.more h.more;
  phased = λ s. h.phased (g.phased s);
  sends = h.sends ∙ g.sends;
  running = h.running ∙ g.running;
}

pub Grows-if : (b : Bool) (c x y : Chat) → Grows c x → Grows c y → Grows c (if b then x else y)
Grows-if true c x y g h = g
Grows-if false c x y g h = h

pub Grows-option :
    (o : Option ℕ) (c : Chat) (f : ℕ → Chat)
    → ((i : ℕ) → Grows c (f i))
    → Grows c (elim o [ none ↦ c | some i ↦ f i ])
Grows-option none c f g = Grows-refl c
Grows-option (some i) c f g = g i

pub lasting_rows-append :
    (xs ys : List AlterChatItem) → lasting_rows (xs ++ ys) ≡ lasting_rows xs ++ lasting_rows ys
lasting_rows-append [] ys = refl
lasting_rows-append (x ∷ xs) ys = ap (◌∷◌ (lasting x)) (lasting_rows-append xs ys)

pub push-Grows : (item : AlterChatItem) (c : Chat) → Grows c (push item c)
push-Grows item c =
    let appended = lasting_rows-append c.items (item ∷ []) in
    record {
      more = lasting item ∷ [];
      appended = appended;
      phased = λ s. record {
        rows = rows-grown c.items (c.items ++ item ∷ []) _ c.thinking_index appended s.rows;
      };
      sends = refl;
      running = refl;
    }

-- A new row of thinking, put into the map under its phase.
pub push_thinking-Grows :
    (phase delta : String) (ts : ℤ) (c : Chat)
    → Grows c
        (record (push
          (thinking
            (record { key = "think:" ⧺ phase; ts = ts; text = delta; streaming = some true }))
          c) { thinking_index = insert phase (length c.items) c.thinking_index })
push_thinking-Grows phase delta ts c =
    let row =
      thinking (record { key = "think:" ⧺ phase; ts = ts; text = delta; streaming = some true }) in
    let pushed = push-Grows row c in
    record {
      more = pushed.more;
      appended = pushed.appended;
      phased = λ s. record {
        rows =
            All-insert (PhaseRow (c.items ++ row ∷ [])) phase (length c.items) c.thinking_index
              (
                ts,
                get_elem?-length c.items (c.items ++ row ∷ []) [] _
                    (lasting_rows-append c.items (row ∷ [])),
              )
              (pushed.phased s).rows;
      };
      sends = refl;
      running = refl;
    }

module _ (f : AlterChatItem → AlterChatItem)
    (keeps : (x : AlterChatItem) → lasting (f x) ≡ lasting x) where
  lasting_rows-update :
      (i : ℕ) (xs : List AlterChatItem) → lasting_rows (update_at i f xs) ≡ lasting_rows xs
  lasting_rows-update i [] = refl
  lasting_rows-update zero (x ∷ xs) = ap (λ k. k ∷ lasting_rows xs) (keeps x)
  lasting_rows-update (suc i) (x ∷ xs) = ap (◌∷◌ (lasting x)) (lasting_rows-update i xs)

  pub amend-Grows : (i : ℕ) (c : Chat) → Grows c (amend i f c)
  amend-Grows i c =
      let appended = lasting_rows-update i c.items ∙ sym (append-nil (lasting_rows c.items)) in
      record {
        more = [];
        appended = appended;
        phased = λ s. record {
          rows = rows-grown c.items (update_at i f c.items) [] c.thinking_index appended s.rows;
        };
        sends = refl;
        running = refl;
      }
