-- ===== src/Inbox/Local.antt =====
-- dsh/packages/dsh/src/client/inbox-state.ts: what the owner's own clicks do to the state.
use soulnet.Prelude.{String, Bool, true, not, ◌&&◌, ltb, Option, none, some, any, ◌==◌, is_some}
use soulnet.Prelude.{if◌then◌else◌}
use soulnet.Prelude.Dict.{lookup, remove}
use soulnet.Inbox.{InboxState, MailNotice, patch_friend, patch_group}

unfoldable pub clear_group_apps : InboxState → String → InboxState
clear_group_apps state gid =
    if is_some (lookup gid state.group_apps)
    then record state { group_apps = remove gid state.group_apps }
    else state

unfoldable pub mark_read_group_local : InboxState → String → InboxState
unfolding patch_group
mark_read_group_local state gid =
    if any (λ g. g.gid == gid && ltb 0 g.unread) state.groups
    then record state { groups = patch_group state.groups gid (λ g. record g { unread = 0 }) }
    else state

unfoldable pub mark_read_local : InboxState → String → InboxState
unfolding patch_friend
mark_read_local state fp =
    if any (λ f. f.fp == fp && ltb 0 f.unread) state.friends
    then record state { friends = patch_friend state.friends fp (λ f. record f { unread = 0 }) }
    else state

-- `notice.sessionId === undefined || notice.sessionId !== currentSessionId`
unfoldable pub should_notify : MailNotice → Option String → Bool
should_notify notice current = elim notice.session_id [
  | none ↦ true
  | some s ↦ elim current [ none ↦ true | some c ↦ not (s == c) ]
]
