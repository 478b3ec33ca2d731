-- ===== src/HostBans/Tests.antt =====
-- A host that fails twice, and the theorems at these inputs.
use inventaire.Base.{
  ◌≤◌, String, ◌≡◌, refl, false, arith, ok, err, some, [], ◌∷◌, string_eq, http, includes,
}
use inventaire.Couch.{memory_lookup}
use inventaire.HostBans.{
  BannedHost, BanData, Config, assert_host_is_not_temporarily_banned, reset_ban_data, next_ban,
  declare_host_error, conditionally_declare_host_error, econnrefused, restore_non_expired_bans,
}
use inventaire.HostBans.Safety.{
  IsBounded, begun, waited, request_failed, request_succeeded, Reach-IsBounded,
}
use inventaire.HostBans.Escalation.{nth_duration, first, again, failing-nth_duration}

abbrev config : Config
config = record {
  base_ban_time = 5000;
  ban_time_increase_factor = 4;
  max_ban_time = 86400000;
  unbannable = "localhost:5984" ∷ [];
}

abbrev host : String
host = "openlibrary.org"

server : Unit {0}
unfolding assert_host_is_not_temporarily_banned reset_ban_data next_ban declare_host_error
    conditionally_declare_host_error restore_non_expired_bans includes
server = tt

abbrev once : BanData
once = (host, record { ban_time = 5000; expire = 6000 }) ∷ []

abbrev twice : BanData
twice = (host, record { ban_time = 20000; expire = 27000 }) ∷ []

runs :
    (declare_host_error config 1000 host [] ≡ once)
    × (declare_host_error config 5999 host once ≡ once)
    × (declare_host_error config 7000 host once ≡ twice)
    × (declare_host_error config 7000 "localhost:5984" once ≡ once)
    × (assert_host_is_not_temporarily_banned 26999 host twice
        ≡ err (http "temporary ban: openlibrary.org" 500))
    × (assert_host_is_not_temporarily_banned 27000 host twice ≡ ok tt)
    × (restore_non_expired_bans 6000 once [] ≡ [])
unfolding server
runs = (refl, refl, refl, refl, refl, refl, refl)

base_le_max : 5000 ≤ 86400000
base_le_max = omega arith

grows : 1 ≤ 4
grows = omega arith

Reach-IsBounded_example : IsBounded config 7000 (reset_ban_data "example.org" once)
unfolding server
Reach-IsBounded_example =
    Reach-IsBounded config base_le_max grows 7000 (reset_ban_data "example.org" once) (
      request_succeeded 7000 "example.org" once (
        waited 1000 7000 once (omega arith)
          (request_failed 1000 host econnrefused false [] (begun 1000))))

failing-nth_duration_example :
    (ban : BannedHost) × (memory_lookup twice host ≡ some ban)
    × (ban.ban_time ≡ nth_duration config 1)
unfolding server
failing-nth_duration_example =
    failing-nth_duration config base_le_max grows 1 host twice refl
      (again 1 7000 once (first 1000 [] refl) refl)
