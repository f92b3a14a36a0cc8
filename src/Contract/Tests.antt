-- ===== src/Contract/Tests.antt =====
-- The theorems about a group's profile at concrete data: a mark over rules that have an old one, and
-- a profile whose wire says paid without a mark.
use soulnet.Prelude.{none, some, ◌≡◌, refl}
use soulnet.Prelude.Int.{pos}
use soulnet.Json.{str, obj, field, end}
use soulnet.Contract.{
  paid_join_from_rules, rules_with_paid_join, WireProfile, normalize_group_profile,
}
use soulnet.Contract.Paid.{paid_join_from_rules-rules_with_paid_join}
use soulnet.Contract.Profile.{IsInForm, normalize_group_profile-IsInForm}

paid_join_from_rules-rules_with_paid_join_example :
    paid_join_from_rules (rules_with_paid_join "#paid-join 1 0x0\nbe kind" "2.5" "0xab")
    ≡ some (record { price = "2.5"; addr = "0xab" })
paid_join_from_rules-rules_with_paid_join_example =
    paid_join_from_rules-rules_with_paid_join "2.5" "ab" (refl, (refl, (refl, tt))) refl
      (refl, (refl, tt)) "#paid-join 1 0x0\nbe kind"

-- a policy `paid` without a mark, and half a post an hour
abbrev profile : WireProfile
profile = record {
  keys = some (obj (field "join" (str "paid") end));
  auto_per_hour = some (record { numerator = pos 1; exponent = 1 });
  agent_rounds = none;
}

normalize_group_profile-IsInForm_example : IsInForm profile (normalize_group_profile profile)
normalize_group_profile-IsInForm_example = normalize_group_profile-IsInForm profile

no_posts : (normalize_group_profile profile).auto_per_hour ≡ pos 0
unfolding normalize_group_profile
no_posts = refl
