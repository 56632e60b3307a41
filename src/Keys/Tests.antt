-- ===== src/Keys/Tests.antt =====
-- Concrete runs of keys.go and of the dashboard's gate.
use codex_auth_broker.Keys.Access.{
  Admits, IsOpen, Presents, bearer_token, dashboard_auth_status, dashboard_auth_status-Admits,
  presented, resolve,
}
use codex_auth_broker.Prelude.{
  All, List, Option, [], false, if◌then◌else◌, none, refl, some, ◌*◌, ◌+◌, ◌<◌, ◌∷◌, ◌≡◌, ◌≢◌, ◌≤◌,
  ◌⊎◌,
}
use codex_auth_broker.Keys.Reload.{
  HasOneClientPerKey, Reloads, current_entries-Reloads, one_client_per_key, serve,
}
use codex_auth_broker.Keys.Resolve.{Resolves, resolve_in-Resolves}
use codex_auth_broker.Keys.Parse.{IsValidEntry}
use codex_auth_broker.Keys.{
  ClientKey, FileRead, Registry, accept_file, admin, all_keys, check_entries, check_entry, contents,
  current_entries, enabled, failed, first_load, implicit_client_key, key_registry_stat_interval,
  match_from, new_key_registry, parse_keys_file, passed, reject_implicit_key_collision, resolve_in,
  role_admin, role_client, seen_key, seen_name, trimmed, with_role,
}
use codex_auth_broker.Prelude.Text.{Bytes, beq, codes, cut_prefix, to_lower, trim_space}
use codex_auth_broker.Prelude.Clock.{Time, second}

abbrev alice : ClientKey
alice = record { name = codes "alice"; key = codes "k1"; role = role_admin; disabled = false }

abbrev bob : ClientKey
bob = record { name = codes "bob"; key = codes "k2"; role = []; disabled = false }

abbrev bob_kept : ClientKey
bob_kept = record bob { role = role_client }

-- A decoder that knows one file, and takes all others for broken.
abbrev decode : Bytes → Option (List ClientKey)
decode raw = if beq raw (codes "file") then some (alice ∷ bob ∷ []) else none

parse_keys_file_run : parse_keys_file decode (codes "file") ≡ passed (alice ∷ bob_kept ∷ [])
unfolding parse_keys_file beq check_entries check_entry trimmed trim_space with_role to_lower
    seen_name seen_key
parse_keys_file_run = refl

abbrev kept : List ClientKey
kept = alice ∷ bob_kept ∷ []

resolve_in-Resolves_example : Resolves kept (codes "k2") (resolve_in kept (codes "k2"))
resolve_in-Resolves_example = resolve_in-Resolves kept (codes "k2")

abbrev file : FileRead
file = contents (codes "file") 5 40

abbrev broken : FileRead
broken = contents (codes "broken") 6 41

abbrev started : Registry
started = record {
  implicit = none;
  path = codes "keys.json";
  entries = kept;
  mtime = 5;
  size = 40;
  checked = 100;
  stat_interval = key_registry_stat_interval;
}

starts : new_key_registry decode [] (codes "keys.json") file 100 ≡ passed started
unfolding new_key_registry first_load accept_file implicit_client_key reject_implicit_key_collision
    parse_keys_file beq check_entries check_entry trimmed trim_space with_role to_lower seen_name
    seen_key
starts = refl

abbrev later_lookups : List (FileRead × Time)
later_lookups = (broken, 3 * second) ∷ (failed, 6 * second) ∷ []

one_client_per_key_example :
    let entries =
      (current_entries decode (serve decode started later_lookups) file (9 * second)).1 in
    All IsValidEntry entries × HasOneClientPerKey entries
one_client_per_key_example =
    one_client_per_key decode [] (codes "keys.json") file 100 started later_lookups file
      (9 * second) starts

current_entries-Reloads_example :
    let (reg', entries) = current_entries decode started broken (3 * second) in
    (entries ≡ all_keys reg'.implicit reg'.entries)
    × ((((started.path ≡ []) ⊎ (3 * second < started.checked + started.stat_interval))
          × (reg' ≡ started))
        ⊎ ((started.path ≢ [])
            × (started.checked + started.stat_interval ≤ 3 * second)
            × Reloads decode started broken (3 * second) reg'))
current_entries-Reloads_example = current_entries-Reloads decode started broken (3 * second)

abbrev bearer : Bytes
bearer = codes "Bearer k1"

bearer_run : dashboard_auth_status decode started bearer none file (101) ≡ (started, 200)
unfolding dashboard_auth_status presented bearer_token cut_prefix trim_space enabled resolve
    current_entries resolve_in match_from admin beq
bearer_run = refl

dashboard_auth_status-Admits_example :
    let (reg', status) = dashboard_auth_status decode started bearer (some (codes "k2")) file 101 in
    (IsOpen started × (status ≡ 200))
    ⊎ (¬ (IsOpen started)
        × (token : Bytes) × Presents bearer (some (codes "k2")) token
        × (((token ≡ []) × (status ≡ 401))
            ⊎ ((token ≢ []) × Admits (current_entries decode started file 101).1 token status)))
dashboard_auth_status-Admits_example =
    dashboard_auth_status-Admits decode started bearer (some (codes "k2")) file 101
