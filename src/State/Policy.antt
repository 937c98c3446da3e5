-- ===== src/State/Policy.antt =====
-- crates/state/src/policy.rs. The rows of the three queries are arguments, `none` where a query
-- failed; a `HashSet` is the list of what was inserted.
use fediway.Prelude.{Bool, ◌&&◌, Option, none, some, String, ◌<>◌, List, [], map, is_empty, ◌>>=◌}

pub record UserPolicy : Type 0 where
  pub blocked_handles : List String
  pub muted_handles : List String
  pub blocked_domains : List String

-- `UserPolicy::default()`
abbrev pub no_policy : UserPolicy
no_policy = record { blocked_handles = []; muted_handles = []; blocked_domains = [] }

unfoldable pub policy_is_empty : UserPolicy → Bool
policy_is_empty p =
    is_empty p.blocked_handles && is_empty p.muted_handles && is_empty p.blocked_domains

-- A local account has no domain in its row.
abbrev pub row_handle : String → String × Option String → String
row_handle instance_domain (username, none) = username <> ("@" <> instance_domain)
row_handle instance_domain (username, some d) = username <> ("@" <> d)

unfoldable pub load_handles : Option (List (String × Option String)) → String → Option (List String)
load_handles rows instance_domain = do found ← rows; some (map (row_handle instance_domain) found)

-- `try_join!`: one failure is the failure of all.
unfoldable pub load :
    Option (List (String × Option String))
    → Option (List (String × Option String))
    → Option (List String)
    → String
    → Option UserPolicy
unfolding load_handles
load blocks mutes domains instance_domain = do
  blocked_handles ← load_handles blocks instance_domain
  muted_handles ← load_handles mutes instance_domain
  blocked_domains ← domains
  some (record {
    blocked_handles = blocked_handles;
    muted_handles = muted_handles;
    blocked_domains = blocked_domains;
  })
