-- ===== src/Json.antt =====
-- The `unknown` values that the plugin reads from its files and from event logs: what
-- `JSON.parse` answers. A missing key, `undefined` in the source, is `none`.
use soulnet.Prelude.{ℕ, zero, suc, ltb, String, Bool, false, Option, none, some, List, [], ◌∷◌}
use soulnet.Prelude.{get_or, get_elem?, ◌==◌, if◌then◌else◌, ◌≡◌, refl, ap}
use soulnet.Prelude.Int.{ℤ, pos, negsuc}
use soulnet.Prelude.Text.{◌⧺◌}
use Prim.Native.Nat.{◌/◌, ◌%◌}

mutual
  -- Numbers are whole: what the plugin rounds of a fraction is not in the model.
  pub data Json : Type 0 where
    null : Json
    bool : Bool → Json
    num : ℤ → Json
    str : String → Json
    arr : Items → Json
    obj : Fields → Json

  pub data Items : Type 0 where
    nil : Items
    cons : Json → Items → Items

  pub data Fields : Type 0 where
    end : Fields
    field : String → Json → Fields → Fields

abbrev pub items : Items → List Json
items nil = []
items (cons v vs) = v ∷ items vs

abbrev pub of_items : List Json → Items
of_items [] = nil
of_items (v ∷ vs) = cons v (of_items vs)

abbrev pub entries : Fields → List (String × Json)
entries end = []
entries (field k v fs) = (k, v) ∷ entries fs

abbrev pub of_entries : List (String × Json) → Fields
of_entries [] = end
of_entries ((k, v) ∷ es) = field k v (of_entries es)

abbrev digits : List String
digits = "0" ∷ "1" ∷ "2" ∷ "3" ∷ "4" ∷ "5" ∷ "6" ∷ "7" ∷ "8" ∷ "9" ∷ []

digit : ℕ → String
digit n = get_or (get_elem? digits n) ""

-- The decimal digits of an index, on fuel no smaller than the index.
index_key : ℕ → ℕ → String
index_key zero n = digit n
index_key (suc fuel) n =
    let more = index_key fuel (n / 10) in
    if ltb n 10 then digit n else Prim.Native.String.◌++◌ more (digit (n % 10))

indexed : ℕ → List Json → List (String × Json)
indexed at [] = []
indexed at (v ∷ vs) = (index_key at at, v) ∷ indexed (suc at) vs

-- The characters of a string, one string each.
characters : String → List Json
characters String.[] = []
characters (String.◌∷◌ c s) = str (String.◌∷◌ c String.[]) ∷ characters s

-- `Object.entries(value)`: an array and a string have their indices as keys.
unfoldable pub object_entries : Json → List (String × Json)
unfolding indexed index_key digit characters
object_entries (obj fs) = entries fs
object_entries (arr vs) = indexed 0 (items vs)
object_entries (str s) = indexed 0 (characters s)
object_entries _ = []

-- `v[key]` on an object
unfoldable pub get_field : String → Fields → Option Json
get_field key end = none
get_field key (field k v fs) = let rest = get_field key fs in if k == key then some v else rest

-- `typeof value === 'string' ? value : ''`, the helper `str` of several files
unfoldable pub text_of : Option Json → String
text_of (some (str s)) = s
text_of _ = ""

-- `value === true`
unfoldable pub is_true : Option Json → Bool
is_true (some (bool b)) = b
is_true _ = false

-- `typeof value === 'object' && value !== null ? value : {}`, then `v[key]`; an array has no key
-- that the plugin asks for.
unfoldable pub key_of : String → Json → Option Json
key_of key (obj fs) = get_field key fs
key_of key _ = none

pub entries-of_entries : (es : List (String × Json)) → entries (of_entries es) ≡ es
entries-of_entries [] = refl
entries-of_entries ((k, v) ∷ es) = ap (◌∷◌ (k, v)) (entries-of_entries es)

pub items-of_items : (vs : List Json) → items (of_items vs) ≡ vs
items-of_items [] = refl
items-of_items (v ∷ vs) = ap (◌∷◌ v) (items-of_items vs)

-- `${n}` for a number
unfoldable pub decimal : ℤ → String
unfolding index_key digit
decimal (pos n) = index_key n n
decimal (negsuc n) = "-" ⧺ index_key (suc n) (suc n)

-- `rec(v)[key]`: of anything but an object every key is absent
unfoldable pub at_key : String → Option Json → Option Json
unfolding key_of get_field
at_key key none = none
at_key key (some v) = key_of key v

-- `v === s`
unfoldable pub is_text : String → Option Json → Bool
is_text s (some (str t)) = t == s
is_text s _ = false

-- `typeof v === 'number' ? v : fallback`
unfoldable pub num_of : Option Json → ℤ → ℤ
num_of (some (num z)) fallback = z
num_of _ fallback = fallback

-- `Array.isArray(v) ? v : []`
unfoldable pub array_of : Option Json → List Json
array_of (some (arr vs)) = items vs
array_of _ = []
