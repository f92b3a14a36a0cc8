-- ===== src/Inbox/Tests.antt =====
-- The theorems about client/inbox-state.ts at concrete inputs.
use soulnet.Prelude.{◌≡◌, refl, true, some, none}
use soulnet.Prelude.{[], ◌∷◌, inl, All}
use soulnet.Drafts.{PendingDraft}
use soulnet.Inbox.{
  ApiFriend, ApiState, InboxState, empty_inbox, unread_total, unread_from, patch_friend,
}
use soulnet.Inbox.Frames.{FrameMessage, message, draft, added, apply_frame, provisional}
use soulnet.Inbox.Valid.{IsUnrepeated, apply_frame-IsUnrepeated}
use soulnet.Inbox.Badges.{Counts, apply_frame-Counts}

abbrev mail : FrameMessage
mail = record { id = "m1"; from = "ann"; name = "Ann"; body = "hello"; ts = 9 }

abbrev ann : ApiFriend
ann = record (provisional mail) { unread = 2; count = 5 }

abbrev bob : ApiFriend
bob = record (provisional mail) { fp = "bob"; name = "Bob"; muted = some true; drafts = some 1 }

abbrev reply : PendingDraft
reply = record {
  id = "d1";
  fp = "bob";
  gid = none;
  name = "Bob";
  body = "later";
  created_at = "";
  reason = "draft-tier";
  trigger = none;
  session_id = none;
  agent = none;
}

abbrev inbox : InboxState
inbox = record empty_inbox { friends = ann ∷ bob ∷ []; drafts = reply ∷ [] }

abbrev answer : ApiState
answer = record {
  friends = ann ∷ bob ∷ [];
  pending = [];
  groups = none;
  drafts = some (reply ∷ []);
  alter_session_id = none;
}

abbrev second : PendingDraft
second = record reply { id = "d2"; fp = "ann" }

apply_frame-IsUnrepeated_example : IsUnrepeated (apply_frame inbox (message mail)).0
apply_frame-IsUnrepeated_example =
    apply_frame-IsUnrepeated inbox (message mail)
      (record { friends = (refl, (refl, tt)); pending = tt; drafts = (refl, tt) })

raised : unread_total (apply_frame inbox (message mail)).0.friends ≡ 3
unfolding apply_frame unread_total unread_from patch_friend
raised = refl

apply_frame-Counts_example :
    All
      (Counts (apply_frame inbox (draft added second)).0.drafts)
      (apply_frame inbox (draft added second)).0.friends
apply_frame-Counts_example =
    apply_frame-Counts inbox (draft added second) (inl refl, tt) (refl, (refl, tt))
