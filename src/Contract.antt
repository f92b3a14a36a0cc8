-- ===== src/Contract.antt =====
-- dsh/packages/dsh/src/group-contract.ts: the profile of a group as the gates read it, and the mark
-- in its rules that says what joining costs.
pub mod Words
pub mod Paid
pub mod Profile
mod Tests
use Prim.Native.Char.{Char, code}
use Prim.Native.Nat.{◌/◌, ◌^◌}
use soulnet.Prelude.{
  ℕ, eqb, String, Bool, true, false, not, ◌&&◌, Option, none, some, is_some, get_or,
}
use soulnet.Prelude.{List, [], ◌∷◌, ◌==◌, if◌then◌else◌, filter}
use soulnet.Prelude.Int.{ℤ, pos, negsuc, is_positive}
use soulnet.Prelude.Text.{◌⧺◌, is_space, trim, strip_prefix, join}
use soulnet.Json.{Json, str, bool, num, at_key, text_of, num_of, array_of, is_text}
use soulnet.Drafts.{unless_empty}
use soulnet.Policy.{ReplyTier, normalize_tier}
use soulnet.Policy.Group.{GroupAgentWake, normalize_group_wake}

abbrev pub default_group_auto_per_hour : ℤ
default_group_auto_per_hour = pos 10

abbrev pub default_group_agent_rounds : ℤ
default_group_agent_rounds = pos 3

abbrev pub paid_join_prefix : String
paid_join_prefix = "#paid-join "

pub record PaidJoinInfo : Type 0 where
  pub price : String
  pub addr : String

abbrev pub on_first : Char → List String → List String
on_first c [] = String.◌∷◌ c String.[] ∷ []
on_first c (s ∷ ss) = String.◌∷◌ c s ∷ ss

-- `s.split('\n')`
unfoldable pub lines : String → List String
lines String.[] = "" ∷ []
lines (String.◌∷◌ c s) =
    let rest = lines s in if eqb (code c) 10 then "" ∷ rest else on_first c rest

abbrev pub starts_space : String → Bool
starts_space String.[] = false
starts_space (String.◌∷◌ c s) = is_space c

-- `s.split(/\s+/)`
unfoldable pub split_spaces : String → List String
split_spaces String.[] = "" ∷ []
split_spaces (String.◌∷◌ c s) =
    let rest = split_spaces s in
    if is_space c then (if starts_space s then rest else "" ∷ rest) else on_first c rest

-- The fields of a line behind the mark.
unfoldable pub paid_fields : List String → Option PaidJoinInfo
paid_fields (price ∷ addr ∷ _) =
    if is_some (strip_prefix "0x" addr) && not (price == "")
    then some (record { price = price; addr = addr })
    else none
paid_fields _ = none

abbrev pub marked : String → Option String
marked line = strip_prefix paid_join_prefix (trim line)

unfoldable pub paid_in_line : String → Option PaidJoinInfo
unfolding split_spaces paid_fields trim strip_prefix
paid_in_line line = elim (marked line) [
  | none ↦ none
  | some rest ↦ paid_fields (split_spaces (trim rest))
]

abbrev or_later : Option PaidJoinInfo → Option PaidJoinInfo → Option PaidJoinInfo
or_later none later = later
or_later (some info) later = some info

unfoldable pub first_paid : List String → Option PaidJoinInfo
unfolding paid_in_line
first_paid [] = none
first_paid (line ∷ rest) = or_later (paid_in_line line) (first_paid rest)

-- Rules that are absent or empty have no mark: the only line of the empty text has none either.
unfoldable pub paid_join_from_rules : String → Option PaidJoinInfo
unfolding lines first_paid
paid_join_from_rules rules = if rules == "" then none else first_paid (lines rules)

unfoldable pub rules_without_paid_join : String → String
unfolding lines trim join strip_prefix
rules_without_paid_join rules =
    if rules == ""
    then ""
    else trim (join "\n" (filter (λ line. not (is_some (marked line))) (lines rules)))

unfoldable pub rules_with_paid_join : String → String → String → String
unfolding rules_without_paid_join
rules_with_paid_join rules price addr =
    let base = rules_without_paid_join rules in
    let marker = paid_join_prefix ⧺ price ⧺ " " ⧺ addr in
    if base == "" then marker else marker ⧺ "\n" ⧺ base

-- What `paidJoinConfig` reads of a profile.
pub record PaidProfile : Type 0 where
  pub join_price : Option String
  pub join_addr : Option String
  pub rules : Option String
  pub join : Option String

abbrev native_paid : PaidProfile → Option PaidJoinInfo
native_paid p = elim p.join_price [
  | none ↦ none
  | some price ↦ elim p.join_addr [
    | none ↦ none
    | some addr ↦
        if get_or p.join "" == "paid" && is_some (strip_prefix "0x" addr)
        then some (record { price = price; addr = addr })
        else none
  ]
]

unfoldable pub paid_join_config : Option PaidProfile → Option PaidJoinInfo
unfolding paid_join_from_rules strip_prefix
paid_join_config none = none
paid_join_config (some p) = or_later (native_paid p) (paid_join_from_rules (get_or p.rules ""))

pub data SpeakWho : Type 0 where
  all owner admins : SpeakWho

pub data JoinPolicy : Type 0 where
  invite apply open_to_all paid : JoinPolicy

pub record GroupProfileView : Type 0 where
  pub speak_humans : Bool
  pub speak_agents : Bool
  pub speak_who : SpeakWho
  pub agent_wake : GroupAgentWake
  pub agent_tier : ReplyTier
  pub auto_per_hour : ℤ
  pub agent_rounds : ℤ
  pub rules : String
  pub admins : List String
  pub room : String
  pub join : JoinPolicy
  pub paid_join : Option PaidJoinInfo

-- `v !== false`
abbrev not_false : Option Json → Bool
not_false (some (bool b)) = b
not_false _ = true

-- A finite number of JavaScript: `numerator / 2 ^ exponent`.
pub record Number : Type 0 where
  pub numerator : ℤ
  pub exponent : ℕ

-- `Math.floor(x)`
abbrev pub floor : Number → ℤ
floor x = elim x.numerator [
  | pos m ↦ pos (m / 2 ^ x.exponent)
  | negsuc m ↦ negsuc (m / 2 ^ x.exponent)
]

-- A profile as the relay sends it: the numbers of its caps, absent when the key is or holds anything
-- but a finite number, and its other keys.
pub record WireProfile : Type 0 where
  pub keys : Option Json
  pub auto_per_hour : Option Number
  pub agent_rounds : Option Number

-- a positive number rounded down, or the default
unfoldable pub floor_or : Option Number → ℤ → ℤ
floor_or none fallback = fallback
floor_or (some x) fallback = if is_positive x.numerator then floor x else fallback

abbrev texts : List Json → List String
texts [] = []
texts (str s ∷ vs) = s ∷ texts vs
texts (_ ∷ vs) = texts vs

abbrev speak_who_of : Option Json → SpeakWho
speak_who_of v = if is_text "owner" v then owner else (if is_text "admins" v then admins else all)

abbrev pub wire_join : Option Json → JoinPolicy
wire_join v =
    if is_text "apply" v then apply else (if is_text "open" v then open_to_all else invite)

unfoldable pub normalize_group_profile : WireProfile → GroupProfileView
unfolding paid_join_from_rules floor_or
normalize_group_profile p =
    let rules = text_of (at_key "rules" p.keys) in
    let paid_join = paid_join_from_rules rules in
    let room = text_of (at_key "room" p.keys) in
    record {
      speak_humans = not_false (at_key "speakHumans" p.keys);
      speak_agents = not_false (at_key "speakAgents" p.keys);
      speak_who = speak_who_of (at_key "speakWho" p.keys);
      agent_wake = normalize_group_wake (at_key "agentWake" p.keys) GroupAgentWake.mention;
      agent_tier = normalize_tier (at_key "agentTier" p.keys) ReplyTier.draft;
      auto_per_hour = floor_or p.auto_per_hour default_group_auto_per_hour;
      agent_rounds = floor_or p.agent_rounds default_group_agent_rounds;
      rules = rules;
      admins = texts (array_of (at_key "admins" p.keys));
      room = if room == "" then "chat" else room;
      join = if is_some paid_join then paid else wire_join (at_key "join" p.keys);
      paid_join = paid_join;
    }

-- A group as the relay sends it, by its `profile`.
pub record GroupRow : Type 0 where
  pub profile : Option WireProfile

abbrev no_profile : WireProfile
no_profile = record { keys = none; auto_per_hour = none; agent_rounds = none }

unfoldable pub group_profile_of : GroupRow → GroupProfileView
unfolding normalize_group_profile
group_profile_of group = normalize_group_profile (get_or group.profile no_profile)

unfoldable pub entry_by : Json → Option String
entry_by entry = unless_empty (text_of (at_key "by" (some entry)))
