-- ===== src/Lib.antt =====
-- The SoulNet plugin of dsh (dsh/packages/dsh): an AI alter that answers mail for its owner. The
-- decisions that the plugin makes mechanically, whatever the model says, and the stores that they
-- read are modelled here.
--
-- Parts. Mail of a friend or a message of a group reaches the plugin. `policy.ts` decides whether
-- it wakes a turn of the model (route_inbound, wake_for_group, wake_agent_for_group), and, when a
-- turn calls a tool to write, whether the text goes out, waits as a draft or is refused (send_gate,
-- group_send_gate). What woke the turn is read from the log of the session by `alter-state.ts`,
-- which also folds it into the transcript that the page shows. The gates read the tier of the
-- friend from `friend-settings.ts`, the voices of the group from `group-settings.ts`, and counts of
-- automatic messages from `HourlyWindow` or from the archive of the group. A text that may not go
-- out is put into `drafts.ts` until the owner approves it. `tools/index.ts` is where the model's
-- call meets the gate and the window. `client/inbox-state.ts` is what the browser shows of it: the
-- friends and groups with their unread and draft counts, folded from the events of the plugin, and
-- `client/page-state.ts` the thread of messages that is open. `network/jsonrpc.ts` carries the
-- calls to the process of the peer. `memory/store.ts` is what the alter remembers, shown by scope.
-- `agent-registry.ts` names the agents of a seat, and `group-contract.ts` reads the profile of a
-- group, with its caps, for the gate. `api/upgrade.ts` runs pnpm to install a newer plugin.
--
-- Files, with the code they model, under dsh/packages/dsh/src:
--   Policy          policy.ts: ReplyTier, normalizeTier, TurnTrigger, routeInbound, sendGate
--   Policy.Group    policy.ts: normalizeGroupWake, wakeForGroup, wakeAgentForGroup,
--                   effectiveAgentTier, groupSendGate
--   Policy.Window   policy.ts: HourlyWindow
--   Policy.Caps     policy.ts: countAutoInWindow, agentRoundsExceeded
--   Policy.Mentions policy.ts: mentionsMe, mentionsAgent, hasMentionToken
--   Drafts          drafts.ts: DraftStore (load, list, get, count, counts, add, remove, removeAll)
--   FriendSettings  friend-settings.ts: FriendSettingsStore (load, get, tier, set, remove)
--   GroupSettings   group-settings.ts: normalizeCommanders, normalizeEntry, normalize
--   GroupSettings.Store   group-settings.ts: GroupSettingsStore (load, the accessors, set, remove)
--   Inbox           client/inbox-state.ts: InboxState, unreadTotal, draftsFor, fromApiState; the rows
--                   of client/api.ts
--   Inbox.Frames    client/inbox-state.ts: applyFrame
--   Inbox.Local     client/inbox-state.ts: clearGroupApps, markReadGroupLocal, markReadLocal,
--                   shouldNotify
--   Page.Entry      client/page-state.ts: ThreadEntry, ThreadState, entryFromApi
--   Page.Thread     client/page-state.ts: sortThread, mergeEntries, applyArchive, applyInbound,
--                   applyOutbound, addOptimistic, reconcileSend, failSend, dropEntry, lastSeq
--   Page.Selection  client/page-state.ts: the selection keys, resolveSelection, kindOf, tabsFor
--   Alter           alter-state.ts: textOf, relayMetaOf, classifyUserMessage, triggerOf
--   Alter.Latest    alter-state.ts: outcomeOf, turnEndMessage, latestFromEvents
--   Alter.Chat      alter-state.ts: the rows of the transcript; its children Thinking and Step
--                   have chatFromEvents
--   Tools           tools/index.ts: decideSend, the flow of soulmirror_send_message
--   Tools.Group     tools/index.ts: the flow of soulmirror_send_group_message
--   Agents          agent-registry.ts: agentNameError, normalize, AgentRegistryStore
--   Contract        group-contract.ts: paidJoinFromRules, rulesWithPaidJoin, paidJoinConfig,
--                   normalizeGroupProfile
--   Upgrade         api/upgrade.ts: isValidVersion, fetchLatest, runUpgrade
--   Upgrade.Versions  api/upgrade.ts: compareVersions
--   Memory          memory/store.ts: the records and scopes, segment
--   Memory.Store    memory/store.ts: MemoryStore (add, get, update, remove), with its statements
--   Memory.Runs     memory/store.ts: any calls of MemoryStore, whole or cut by a throw
--   Memory.Recall   memory/store.ts: MemoryStore (list, count, retrieve)
--   Rpc             network/jsonrpc.ts: JsonRpcEndpoint (request, notify, close, the timers)
--   Rpc.Wire        network/jsonrpc.ts: handleLine, and the events of the endpoint
--   Json            values of JSON.parse and JSON.stringify, Object.entries and property reads
--   Prelude         the library's names, lists, comparisons, and objects as association lists
--
-- How the code is written here. A method that changes a store returns the new store beside its
-- answer. A TypeScript key that may be absent is an Option; where a patch tells an absent key from
-- one that is undefined, an Option of an Option. A file is the JSON value that it holds, `none`
-- when it cannot be read or parsed, and whether a write is carried out is an argument `written` of
-- the operation: drafts.ts ignores a failed write, the other stores throw, which is the answer
-- `none` after memory has changed. The clock's answer, a fresh id and a fresh time stamp are
-- arguments. Numbers are whole, of a file or a message too, but for the two caps of a group's
-- profile, which the code rounds down. The texts that are searched for a mention are lists of
-- UTF-16 code units, other texts are strings of Unicode characters, so that a slice counts a
-- character beyond the basic plane once.
--
-- Steps. The JSON-RPC endpoint, the upgrades, the memory and the registry of agents are run over
-- any sequence of their calls and of what happens to them: an answer, a timer or the end of a
-- process may come at any place of the sequence. What the endpoint and the upgrades do to the
-- outside is a trace in their state. A call of the memory may stop behind any of its SQL statements,
-- which no transaction holds together. The archive of a group grows by the posts of the tool and by
-- what else is said.
--
-- Fuel. The search for a mention runs on one more than the length of the body: each round starts
-- behind the place of the last one, and the theorems about it have no fuel in them. The digits of a
-- number written as a key, in Json, run on the number itself, and each takes off a power of ten.
--
-- Parameters. `locale_after` says whether `localeCompare` answers above 0, of any two ids; nothing
-- is assumed of it, and the sort of the host is the stable insertion of each entry. `to_lower_case`
-- (String.prototype.toLowerCase) is any function, and `trim` of the names in group-settings.ts any
-- function that changes nothing the second time. `parse_json` is JSON.parse, with `none` or the
-- message where it throws, and `revise_of` the regular expression REVISE_INSTRUCTION, both any
-- functions. `matches` and `ranks` are the full-text match of SQLite and its bm25 order, any
-- functions; the other statements of memory/store.ts are written out. `fetch` is what a registry
-- answers, and `number` is Number, both any functions. `conversation` is what the network answers of
-- the archive of a group for a limit of entries, any function; an automatic post is checked against
-- the entries of that answer only.
--
-- Order. Each call of a tool that writes is one step: calls that overlap, where one counts before
-- the other records, are not in the model.
--
-- Not modelled: the turns of the model, the processes and sockets of the network, the sessions and
-- HTTP routes around these parts, which call the host; the screens that draw the state; the text
-- that an upgrade answers and the search for the profile's directory; and the keys
-- that every JavaScript object inherits (`__proto__` and the like), which the code would find in
-- its maps. JSON objects have each key once. The order of integer-like keys in an object is the
-- order of their insertion here.
pub mod Prelude
pub mod Json
pub mod Agents
pub mod Alter
pub mod Contract
pub mod Drafts
pub mod FriendSettings
pub mod GroupSettings
pub mod Inbox
pub mod Memory
pub mod Page
pub mod Policy
pub mod Rpc
pub mod Tools
pub mod Upgrade
