-- ===== src/HostBans.antt =====
-- The temporary bans of hosts that do not answer (server/lib/requests_temporary_host_ban.ts). The
-- configuration and the set of hosts that are never banned are parameters; the copy of the bans in
-- the level database is left out, but for the restoration of what it held.
mod Escalation
mod Safety
mod Tests
use Prim.Native.String.{◌++◌}
use inventaire.Base.{
  ℕ, ◌+◌, ◌*◌, min, String, Bool, true, false, Option, none, some, List, [], ◌∷◌, ◌==◌, string_eq,
  ltb, not, includes, if◌then◌else◌, Outcome, ok, err, http, filter, ◌&&◌, ◌||◌,
}
use inventaire.Couch.{memory_lookup, memory_put}

pub record BannedHost : Type 0 where
  pub ban_time : ℕ
  pub expire : ℕ

abbrev pub BanData : Type 0
BanData = List (String × BannedHost)

-- config.outgoingRequests, and unbannableServicesHosts
pub record Config : Type 0 where
  pub base_ban_time : ℕ
  pub ban_time_increase_factor : ℕ
  pub max_ban_time : ℕ
  pub unbannable : List String

unfoldable pub restore_non_expired_bans : ℕ → BanData → BanData → BanData
restore_non_expired_bans now [] bans = bans
restore_non_expired_bans now ((host, ban) ∷ saved) bans =
    restore_non_expired_bans now saved
      (if ltb now ban.expire then memory_put bans host ban else bans)

-- The test of assertHostIsNotTemporarilyBanned
abbrev pub is_banned : ℕ → Option BannedHost → Bool
is_banned now none = false
is_banned now (some ban) = ltb now ban.expire

unfoldable pub assert_host_is_not_temporarily_banned : ℕ → String → BanData → Outcome (Unit {0})
assert_host_is_not_temporarily_banned now host bans =
    if is_banned now (memory_lookup bans host)
    then err (http ("temporary ban: " ++ host) 500)
    else ok tt

-- resetBanData: `delete banData[host]`
unfoldable pub reset_ban_data : String → BanData → BanData
reset_ban_data host [] = []
reset_ban_data host ((h, ban) ∷ bans) =
    let rest = reset_ban_data host bans in if h == host then rest else (h, ban) ∷ rest

unfoldable pub next_ban : Config → ℕ → Option BannedHost → Option BannedHost
next_ban config now none =
    some (record { ban_time = config.base_ban_time; expire = now + config.base_ban_time })
next_ban config now (some ban) =
    let ban_time = min (ban.ban_time * config.ban_time_increase_factor) config.max_ban_time in
    if ltb now ban.expire
    then none
    else some (record { ban_time = ban_time; expire = now + ban_time })

abbrev pub store_ban : String → BanData → Option BannedHost → BanData
store_ban host bans none = bans
store_ban host bans (some ban) = memory_put bans host ban

unfoldable pub declare_host_error : Config → ℕ → String → BanData → BanData
declare_host_error config now host bans =
    if includes config.unbannable host
    then bans
    else store_ban host bans (next_ban config now (memory_lookup bans host))

-- The errors that conditionallyDeclareHostError tells apart, by `err.type` and `err.code`
pub data RequestError : Type 0 where
  aborted unable_to_verify_leaf_signature econnrefused other_error : RequestError

unfoldable pub conditionally_declare_host_error :
    Config → ℕ → String → RequestError → Bool → BanData → BanData
conditionally_declare_host_error config now host aborted no_host_ban_on_timeout bans =
    if not no_host_ban_on_timeout then declare_host_error config now host bans else bans
conditionally_declare_host_error config now host unable_to_verify_leaf_signature _ bans =
    declare_host_error config now host bans
conditionally_declare_host_error config now host econnrefused _ bans =
    declare_host_error config now host bans
conditionally_declare_host_error config now host other_error _ bans = bans
