-- ===== src/Sync/Route.antt =====
-- The endpoint of the synchronisation: templates/next/src/app/api/sync/route.ts. A request that the
-- schema refuses is none; the version and the client's id, which nothing reads, are left out. The
-- transaction is the change of the store, and does not fail.
use evo_platform.Base.{
  ℕ, Bool, true, false, ◌&&◌, String, Option, none, some, List, [], if◌then◌else◌, ltb,
}
use evo_platform.Base.Integers.{ℤ}
use evo_platform.Sync.Server.{
  Mutation, RejectReason, Project, Task, Store, ApplyResult, apply_mutations,
}
use evo_platform.Sync.Pull.{PullResult, pull_changes}

pub record SyncRequest : Type 0 where
  pub cursor : ℕ
  pub pull_limit : Option ℤ
  pub mutations : List Mutation

pub record SyncResponse : Type 0 where
  pub applied : List ℕ
  pub rejected : List (ℕ × RejectReason)
  pub projects : List Project
  pub tasks : List Task
  pub cursor : ℕ
  pub has_more : Bool
  pub resync_required : Bool

pub data Reply : Type 0 where
  -- the request did not come through
  unreachable : Reply
  -- 401
  no_session : Reply
  -- any other status that is not 2xx
  refused : ℕ → Reply
  answer : SyncResponse → Reply

abbrev pub default_pull_limit : ℕ
default_pull_limit = 1000

abbrev pub max_pull_limit : ℕ
max_pull_limit = 2000

-- `Math.min`, `Math.max`
abbrev min : ℕ → ℕ → ℕ
min a b = if ltb b a then b else a

abbrev max : ℕ → ℕ → ℕ
max a b = if ltb a b then b else a

-- The limit of a page: a negative one is below 1.
unfoldable pub page_limit : Option ℤ → ℕ
page_limit none = max 1 (min default_pull_limit max_pull_limit)
page_limit (some (ℤ.pos n)) = max 1 (min n max_pull_limit)
page_limit (some (ℤ.negsuc n)) = 1

-- Whether the client may have missed tombstones that were purged.
abbrev pub is_behind : Option ℕ → ℕ → Bool
is_behind none cursor = false
is_behind (some horizon) cursor = ltb 0 cursor && ltb cursor horizon

abbrev pub pulled : ApplyResult → PullResult → SyncResponse
pulled r p = record {
  applied = r.applied;
  rejected = r.rejected;
  projects = p.projects;
  tasks = p.tasks;
  cursor = p.cursor;
  has_more = p.has_more;
  resync_required = false;
}

abbrev pub resync : ApplyResult → ℕ → SyncResponse
resync r cursor = record {
  applied = r.applied;
  rejected = r.rejected;
  projects = [];
  tasks = [];
  cursor = cursor;
  has_more = false;
  resync_required = true;
}

-- The transaction, and the answer that is made of it.
unfoldable pub serve : ℕ → Option ℕ → String → SyncRequest → Store → SyncResponse × Store
unfolding apply_mutations pull_changes page_limit
serve now horizon tenant_id q s =
    let (r, s') = apply_mutations now tenant_id q.mutations s in
    (
      if is_behind horizon q.cursor
          then resync r q.cursor
          else pulled r (pull_changes tenant_id q.cursor (page_limit q.pull_limit) s'),
      s',
    )

-- `POST`: by the tenant of the session, and the body.
unfoldable pub post : ℕ → Option ℕ → Option String → Option SyncRequest → Store → Reply × Store
unfolding serve
post now horizon none body s = (Reply.no_session, s)
post now horizon (some tenant_id) none s = (Reply.refused 400, s)
post now horizon (some tenant_id) (some q) s =
    let (response, s') = serve now horizon tenant_id q s in (Reply.answer response, s')
