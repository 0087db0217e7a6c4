-- ===== src/Core/Table/Update.antt =====
-- A hot `replace_users` and the users that stay in the table.
use aerion.Base.{
  ℕ, ◌≡◌, refl, ap, ◌∙◌, true, some, List, [], ◌∷◌, arith, get_elem?, lookup, keys, ok, bytes_eq,
}
use aerion.Base.Text.{Text}
use aerion.Core.Types.{CoreUser, ProxyCore, UserState}
use aerion.Core.Table.{replace_users, cancel_absent}
use aerion.Core.Table.Grouping.{no_users}
use aerion.Core.Table.Replacement.{Grouped, group_users-Grouped, has_id, group_users-keys}
use aerion.Core.Table.Hot.{
  SameTraffic, Kept, Kept-trans, install-Installed, cancel_absent-Kept, ids, replace_users-Replaced,
}

ids-keys :
    (m : List (Text × List Text)) (us : List (Text × CoreUser)) → Grouped m us → ids us ≡ keys us
unfolding ids
ids-keys m [] h = refl
ids-keys m ((k, u) ∷ us) ((same, _), h) = cc (same, ids-keys m us h)

-- A user that is in the table and in the new list keeps its place in the table, and the state there
-- keeps its id and its three traffic counters, whatever happens to its limits, credentials or sessions.
pub replace_users-SameTraffic :
    (hash : Text → List ℕ) (core : ProxyCore) (users : List CoreUser) (now : ℕ) (core' : ProxyCore)
    (id : Text) (at : ℕ) (u : UserState)
    → replace_users hash core users now ≡ ok core'
    → lookup id core.users ≡ some at
    → get_elem? core.heap.states at ≡ some u
    → has_id id users ≡ true
    → (v : UserState) × (lookup id core'.users ≡ some at)
      × (get_elem? core'.heap.states at ≡ some v)
      × SameTraffic u v
unfolding Kept
replace_users-SameTraffic hash core users now core' id at u e place found stays =
    let r = replace_users-Replaced hash core users now core' e in
    let grouped = group_users-Grouped hash no_users users r.g r.grouped tt in
    let done =
      install-Installed core.users r.g.credentials_by_id now r.g.users_by_id core.heap []
        r.installed core'.users r.installs in
    let (v, there, same) =
      Kept-trans core.heap r.installed (cancel_absent (keys r.g.users_by_id) core.users r.installed)
        done.kept (cancel_absent-Kept (keys r.g.users_by_id) core.users r.installed) at u found in
    (
      v,
      done.places id at place
          ∙ ground (
            arith,
            ids-keys r.g.credentials_by_id r.g.users_by_id grouped,
            group_users-keys hash no_users users r.g id r.grouped,
          ),
      ap (λ states. get_elem? states at) r.states ∙ there,
      same,
    )
