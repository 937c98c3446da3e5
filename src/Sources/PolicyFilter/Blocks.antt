-- ===== src/Sources/PolicyFilter/Blocks.antt =====
-- Which posts crates/sources/src/mastodon/policy_filter.rs lets through.
use Prim.Native.Char.{Char, char, code}
use mathlib.Core.Option
use Prim.Native.String.append
use fediway.Prelude.{
  ℕ, zero, suc, ◌==◌, Never, none, ◌≡◌, refl, Bool, true, false, not, ◌&&◌, ◌||◌, String, List, [],
  ◌∷◌, ◌<>◌, ◌⊎◌, inl, inr, ap, sym, ◌∙◌, Bool-cases, Among, map, str_eq_self, Option, some,
  contains, contains-empty, filter, arith,
}
use fediway.Common.Types.{Post, body}
use fediway.Feed.Candidate.{Candidate}
use fediway.State.Policy.{UserPolicy, policy_is_empty, row_handle, load}
use fediway.Sources.PolicyFilter.{PolicyFilter, new, trim_ats, has_at, last_part, allows, apply}

-- A handle or its domain is on one of the lists that the filter applies.
abbrev pub hides : PolicyFilter → String → Bool
hides f handle =
    contains f.policy.blocked_handles handle
    || (f.apply_mutes && contains f.policy.muted_handles handle)
    || contains f.policy.blocked_domains (last_part handle)

allows-hides :
    (f : PolicyFilter) (p : Post) → allows f p ≡ not (hides f (trim_ats (body p).author.handle))
unfolding allows
allows-hides f p = ground arith

filter_all {ℓ} :
    {A : Type ℓ} (p : A → Bool) (xs : List A) → ((a : A) → p a ≡ true) → filter p xs ≡ xs
filter_all p [] h = refl
filter_all p (x ∷ xs) h = rw (h x, filter_all p xs h) refl

filter_ext {ℓ} :
    {A : Type ℓ} (p q : A → Bool) (xs : List A) → ((a : A) → p a ≡ q a) → filter p xs ≡ filter q xs
filter_ext p q [] h = refl
filter_ext p q (x ∷ xs) h = rw (h x, filter_ext p q xs h) refl

empty-hides :
    (f : PolicyFilter) (handle : String) → policy_is_empty f.policy ≡ true → hides f handle ≡ false
unfolding policy_is_empty
empty-hides f handle h =
    let p = f.policy in
    ground (
      arith,
      contains-empty p.blocked_handles handle,
      contains-empty p.muted_handles handle,
      contains-empty p.blocked_domains (last_part handle),
    )

module _ {F : Type 0} where
  abbrev pub kept : PolicyFilter → Candidate Post F → Bool
  kept f c = not (hides f (trim_ats (body c.item).author.handle))

  -- The filter keeps, in their order, the candidates whose trimmed handle is on no list that applies
  -- and whose domain is not blocked; the early return for an empty policy makes no difference.
  pub apply-eq-filter :
      (f : PolicyFilter) (cs : List (Candidate Post F)) → apply f cs ≡ filter (kept f) cs
  unfolding apply
  apply-eq-filter f cs = elim (Bool-cases (policy_is_empty f.policy)) [
    | inl e ↦ rw e (sym (filter_all (kept f) cs (λ c. ap not (empty-hides f _ e))))
    | inr e ↦ rw e (filter_ext (λ c. allows f c.item) (kept f) cs (λ c. allows-hides f c.item))
  ]

-- `@`
abbrev at : Char
at = char 64 tt

has_at-address : (u d : String) → has_at (u <> ("@" <> d)) ≡ true
unfolding has_at
has_at-address String.[] d = rw (append.nil ("@" <> d), append.cons at String.[] d) refl
has_at-address (String.◌∷◌ c u) d = rw (append.cons c u ("@" <> d), has_at-address u d) ground arith

last_part-address : (u d : String) → has_at d ≡ false → last_part (u <> ("@" <> d)) ≡ d
unfolding last_part
last_part-address String.[] d h =
    rw (append.nil ("@" <> d), append.cons at String.[] d, append.nil d, h) refl
last_part-address (String.◌∷◌ c u) d h =
    rw (append.cons c u ("@" <> d), has_at-address u d) (last_part-address u d h)

-- For an address `user@domain`, written with or without leading `@`s, the filter looks the whole
-- address up among the blocked and, if they apply, the muted handles, and the domain among the
-- blocked domains.
allows-address :
    (f : PolicyFilter) (p : Post) (u d : String)
    → has_at d ≡ false
    → trim_ats (body p).author.handle ≡ u <> ("@" <> d)
    → allows f p
      ≡ not (
          contains f.policy.blocked_handles (u <> ("@" <> d))
          || (f.apply_mutes && contains f.policy.muted_handles (u <> ("@" <> d)))
          || contains f.policy.blocked_domains d)
allows-address f p u d h e =
    allows-hides f p
    ∙ ap (λ t. not (hides f t)) e
    ∙ ap
        (λ t. not (
          contains f.policy.blocked_handles (u <> ("@" <> d))
          || (f.apply_mutes && contains f.policy.muted_handles (u <> ("@" <> d)))
          || contains f.policy.blocked_domains t))
        (last_part-address u d h)

contains-map :
    (domain : String) (rows : List (String × Option String)) (row : String × Option String)
    → Among row rows
    → contains (map (row_handle domain) rows) (row_handle domain row) ≡ true
unfolding contains
contains-map domain [] row h = elim h [ ]
contains-map domain (r ∷ rows) row (inl e) =
    rw (ap (row_handle domain) e, str_eq_self (row_handle domain r)) refl
contains-map domain (r ∷ rows) row (inr h) = rw (contains-map domain rows row h) ground arith

load-handles :
    (blocks mutes : List (String × Option String)) (domains : List String) (domain : String)
    (policy : UserPolicy)
    → load (some blocks) (some mutes) (some domains) domain ≡ some policy
    → (policy.blocked_handles ≡ map (row_handle domain) blocks)
      × (policy.muted_handles ≡ map (row_handle domain) mutes)
unfolding load
load-handles blocks mutes domains domain policy h =
    let same : record {
      blocked_handles = map (row_handle domain) blocks;
      muted_handles = map (row_handle domain) mutes;
      blocked_domains = domains;
    }
        ≡ policy =
      cc in
    (ap (λ q. q.blocked_handles) (sym same), ap (λ q. q.muted_handles) (sym same))

-- The user names of Mastodon are not empty and do not begin with `@`.
abbrev pub IsUsername : String → Type 0
IsUsername String.[] = Never
IsUsername (String.◌∷◌ c s) = (code c == b'@') ≡ false

abbrev ats : ℕ → String
ats zero = ""
ats (suc n) = String.◌∷◌ at (ats n)

-- How a source may write the handle of an account: its address, the domain of a local account being the
-- instance's, behind any number of `@`s.
abbrev pub IsHandleOf : String → String → Option String → String → Type 0
IsHandleOf instance_domain username host handle =
    (n : ℕ) × (handle ≡ ats n <> (username <> ("@" <> Option.get_or host instance_domain)))

trim_ats-ats : (n : ℕ) (s : String) → trim_ats (ats n <> s) ≡ trim_ats s
unfolding trim_ats
trim_ats-ats zero s = rw (append.nil s) refl
trim_ats-ats (suc n) s = rw (append.cons at (ats n) s) (trim_ats-ats n s)

trim_ats-username :
    (username s : String) → IsUsername username → trim_ats (username <> s) ≡ username <> s
unfolding trim_ats
trim_ats-username String.[] s h = elim h [ ]
trim_ats-username (String.◌∷◌ c u) s h = rw (append.cons c u s, h) refl

row_handle-address :
    (domain username : String) (host : Option String)
    → row_handle domain (username, host) ≡ username <> ("@" <> Option.get_or host domain)
row_handle-address domain username none = refl
row_handle-address domain username (some d) = refl

trim_ats-row_handle :
    (domain username : String) (host : Option String) (handle : String)
    → IsUsername username
    → IsHandleOf domain username host handle
    → trim_ats handle ≡ row_handle domain (username, host)
trim_ats-row_handle domain username host handle h (n, e) =
    ap trim_ats e
    ∙ trim_ats-ats n (username <> ("@" <> Option.get_or host domain))
    ∙ trim_ats-username username ("@" <> Option.get_or host domain) h
    ∙ sym (row_handle-address domain username host)

-- A post by an account that the user blocks or mutes is never let through by the filter with the
-- policy loaded from the rows, whether the account is local (its row has no domain) or remote, and with
-- however many `@`s the source writes in front of the account's address.
pub allows-load :
    (blocks mutes : List (String × Option String)) (domains : List String) (domain : String)
    (policy : UserPolicy) (p : Post) (username : String) (host : Option String)
    → load (some blocks) (some mutes) (some domains) domain ≡ some policy
    → Among (username, host) blocks ⊎ Among (username, host) mutes
    → IsUsername username
    → IsHandleOf domain username host (body p).author.handle
    → allows (new policy) p ≡ false
unfolding new
allows-load blocks mutes domains domain policy p username host l h name written =
    let (b, m) = load-handles blocks mutes domains domain policy l in
    let row : String × Option String = (username, host) in
    let handle = row_handle domain row in
    let e = trim_ats-row_handle domain username host (body p).author.handle name written in
    let hidden : hides (new policy) handle ≡ true = elim h [
      | inl a ↦
          let hit : contains policy.blocked_handles handle ≡ true =
            ap (λ hs. contains hs handle) b ∙ contains-map domain blocks row a in
          ground (arith, hit)
      | inr a ↦
          let hit : contains policy.muted_handles handle ≡ true =
            ap (λ hs. contains hs handle) m ∙ contains-map domain mutes row a in
          ground (arith, hit)
    ] in
    allows-hides (new policy) p ∙ ap (λ t. not (hides (new policy) t)) e ∙ ap not hidden
