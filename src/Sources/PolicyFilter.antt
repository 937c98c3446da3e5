-- ===== src/Sources/PolicyFilter.antt =====
-- crates/sources/src/mastodon/policy_filter.rs
pub mod Blocks
use Prim.Native.Char.{code}
use fediway.Prelude.{
  Bool, true, false, not, ◌&&◌, ◌||◌, String, List, ◌==◌, contains, filter, if◌then◌else◌,
}
use fediway.Common.Types.{Post, body}
use fediway.Feed.Candidate.{Candidate}
use fediway.Feed.Filter.{Filter}
use fediway.State.Policy.{UserPolicy, policy_is_empty}

pub record PolicyFilter : Type 0 where
  pub policy : UserPolicy
  pub apply_mutes : Bool

unfoldable pub new : UserPolicy → PolicyFilter
new policy = record { policy = policy; apply_mutes = true }

unfoldable pub without_mutes : PolicyFilter → PolicyFilter
without_mutes f = record f { apply_mutes = false }

-- `trim_start_matches('@')`
unfoldable pub trim_ats : String → String
trim_ats String.[] = ""
trim_ats (String.◌∷◌ c s) = let rest = trim_ats s in if code c == b'@' then rest else String.◌∷◌ c s

unfoldable pub has_at : String → Bool
has_at String.[] = false
has_at (String.◌∷◌ c s) = code c == b'@' || has_at s

-- `rsplit('@').next()`: what stands after the last `@`, the whole text where there is none.
unfoldable pub last_part : String → String
unfolding has_at
last_part String.[] = ""
last_part (String.◌∷◌ c s) =
    let rest = last_part s in
    let whole = if code c == b'@' then s else String.◌∷◌ c s in if has_at s then rest else whole

-- The closure of `retain`, with its three early returns.
unfoldable pub allows : PolicyFilter → Post → Bool
unfolding contains last_part trim_ats
allows f p =
    let handle = trim_ats (body p).author.handle in
    if contains f.policy.blocked_handles handle
    then false
    else if f.apply_mutes && contains f.policy.muted_handles handle
    then false
    else if contains f.policy.blocked_domains (last_part handle)
    then false
    else true

module _ {F : Type 0} where
  unfoldable pub apply : PolicyFilter → List (Candidate Post F) → List (Candidate Post F)
  unfolding policy_is_empty allows
  apply f candidates =
      if policy_is_empty f.policy then candidates else filter (λ c. allows f c.item) candidates

  unfoldable pub policy_filter : {Ctx : Type 0} → PolicyFilter → Filter Post Ctx F
  unfolding apply
  policy_filter f = record { apply = λ _. apply f }
