-- ===== src/HostBans/Escalation.antt =====
-- The duration of the bans that declareHostError (server/lib/requests_temporary_host_ban.ts) adds.
use native.Mathlib.Nat.{mul-le-mul_left, pow-suc, pow-zero, mul_assoc}
use inventaire.Base.{
  ℕ, suc, ◌+◌, ◌*◌, ◌^◌, ◌≤◌, min, String, Bool, true, false, Option, none, some, ◌==◌, string_eq,
  ltb, leb, includes, if◌then◌else◌, ◌≡◌, ◌∙◌, refl, sym, ap, arith, Bool-cases, inl, inr, beq_refl,
}
use inventaire.Couch.{memory_lookup, memory_lookup-put}
use inventaire.HostBans.{BannedHost, BanData, Config, is_banned, next_ban, declare_host_error}

-- The ban that an error adds.
abbrev pub duration : Config → Option BannedHost → ℕ
duration config none = config.base_ban_time
duration config (some ban) =
    min (ban.ban_time * config.ban_time_increase_factor) config.max_ban_time

next_ban-duration :
    (config : Config) (now : ℕ) (o : Option BannedHost)
    → is_banned now o ≡ false
    → next_ban config now o
      ≡ some (record { ban_time = duration config o; expire = now + duration config o })
unfolding next_ban
next_ban-duration config now none h = refl
next_ban-duration config now (some ban) h = rw h refl

lookup-declare :
    (config : Config) (now : ℕ) (host other : String) (bans : BanData)
    → includes config.unbannable host ≡ false
    → is_banned now (memory_lookup bans host) ≡ false
    → memory_lookup (declare_host_error config now host bans) other ≡ (
        if host == other
        then some (record {
          ban_time = duration config (memory_lookup bans host);
          expire = now + duration config (memory_lookup bans host);
        })
        else memory_lookup bans other)
unfolding declare_host_error
lookup-declare config now host other bans free idle =
    rw (free, next_ban-duration config now (memory_lookup bans host) idle)
      (memory_lookup-put bans host other _)

lookup-declare_self :
    (config : Config) (now : ℕ) (host : String) (bans : BanData)
    → includes config.unbannable host ≡ false
    → is_banned now (memory_lookup bans host) ≡ false
    → memory_lookup (declare_host_error config now host bans) host
      ≡ some (record {
        ban_time = duration config (memory_lookup bans host);
        expire = now + duration config (memory_lookup bans host);
      })
lookup-declare_self config now host bans free idle =
    rw (lookup-declare config now host host bans free idle, beq_refl host) refl

unbannable-declare :
    (config : Config) (now : ℕ) (host other : String) (bans : BanData)
    → includes config.unbannable host ≡ true
    → memory_lookup (declare_host_error config now host bans) other ≡ memory_lookup bans other
unfolding declare_host_error
unbannable-declare config now host other bans safe = rw safe refl

next_ban_busy :
    (config : Config) (now : ℕ) (o : Option BannedHost)
    → is_banned now o ≡ true
    → next_ban config now o ≡ none
unfolding next_ban
next_ban_busy config now none h = absurd (ground arith)
next_ban_busy config now (some ban) h = rw h refl

busy-declare :
    (config : Config) (now : ℕ) (host other : String) (bans : BanData)
    → includes config.unbannable host ≡ false
    → is_banned now (memory_lookup bans host) ≡ true
    → memory_lookup (declare_host_error config now host bans) other ≡ memory_lookup bans other
unfolding declare_host_error
busy-declare config now host other bans free busy =
    rw (free, next_ban_busy config now (memory_lookup bans host) busy) refl

is_banned-if :
    (t : ℕ) (b : Bool) (ban : BannedHost) (o : Option BannedHost)
    → is_banned t (if b then some ban else o) ≡ (if b then ltb t ban.expire else is_banned t o)
is_banned-if t true ban o = refl
is_banned-if t false ban o = refl

-- An error of a host that may be banned, and is not banned at that time, bans it from then for its
-- next duration and changes the bans of no other host; an error in the time of a ban, or of a host
-- that may not be banned, changes nothing.
is_banned-declare :
    (config : Config) (now t : ℕ) (host other : String) (bans : BanData)
    → is_banned t (memory_lookup (declare_host_error config now host bans) other) ≡ (
        if includes config.unbannable host
        then is_banned t (memory_lookup bans other)
        else if is_banned now (memory_lookup bans host)
        then is_banned t (memory_lookup bans other)
        else if host == other
        then ltb t (now + duration config (memory_lookup bans host))
        else is_banned t (memory_lookup bans other))
is_banned-declare config now t host other bans =
    elim (Bool-cases (includes config.unbannable host)) [
      | inl safe ↦ rw safe (ap (is_banned t) (unbannable-declare config now host other bans safe))
      | inr free ↦ rw free (elim (Bool-cases (is_banned now (memory_lookup bans host))) [
        | inl busy ↦ rw busy (ap (is_banned t) (busy-declare config now host other bans free busy))
        | inr idle ↦ rw idle (
            ap (is_banned t) (lookup-declare config now host other bans free idle)
            ∙ is_banned-if t (host == other) _ (memory_lookup bans other))
      ])
    ]

-- The bans after a host has failed that many times, each time while it was not banned, with any
-- changes for other hosts in between, and none before.
pub data Failing (config : Config) (host : String) : ℕ → BanData → Type 0 where
  first :
      (now : ℕ) (bans : BanData)
      → memory_lookup bans host ≡ none
      → Failing config host 1 (declare_host_error config now host bans)
  again :
      (n now : ℕ) (bans : BanData)
      → Failing config host n bans
      → is_banned now (memory_lookup bans host) ≡ false
      → Failing config host (suc n) (declare_host_error config now host bans)
  meanwhile :
      (n : ℕ) (bans bans' : BanData)
      → Failing config host n bans
      → memory_lookup bans' host ≡ memory_lookup bans host
      → Failing config host n bans'

capped_again : (x f m : ℕ) → 1 ≤ f → min (min x m * f) m ≡ min (x * f) m
capped_again x f m h = elim (Bool-cases (leb x m)) [
  | inl le ↦ let small : min x m ≡ x = ground arith in rw small refl
  | inr gt ↦
      let big : min x m ≡ m = ground arith in
      rw big (omega (arith, mul-le-mul_left m h, mul-le-mul_left x h, gt_of gt))
]
  where
    gt_of : leb x m ≡ false → m ≤ x
    gt_of e = ground arith

-- The duration of the nth ban in a row
abbrev pub nth_duration : Config → ℕ → ℕ
nth_duration config n =
    min (config.base_ban_time * config.ban_time_increase_factor ^ n) config.max_ban_time

module _ (config : Config) (base_le_max : config.base_ban_time ≤ config.max_ban_time)
    (grows : 1 ≤ config.ban_time_increase_factor) where
  nth_grows :
      (n : ℕ)
      → min (nth_duration config n * config.ban_time_increase_factor) config.max_ban_time
        ≡ nth_duration config (suc n)
  nth_grows n =
      let x = config.base_ban_time * config.ban_time_increase_factor ^ n in
      let f = config.ban_time_increase_factor in
      let step : config.base_ban_time * f ^ suc n ≡ x * f =
        ap (λ y. config.base_ban_time * y) (pow-suc f n)
        ∙ sym (mul_assoc config.base_ban_time (f ^ n) f) in
      rw step (capped_again x f config.max_ban_time grows)

  nth_first : config.base_ban_time ≡ nth_duration config 0
  nth_first =
      let e : config.ban_time_increase_factor ^ 0 ≡ 1 = pow-zero config.ban_time_increase_factor in
      rw e (omega arith)

  abbrev Last : ℕ → String → BanData → Type 0
  Last n host bans =
      (k : ℕ) × (ban : BannedHost) × (n ≡ suc k)
      × (memory_lookup bans host ≡ some ban)
      × (ban.ban_time ≡ nth_duration config k)

  duration-nth :
      (n : ℕ) (host : String) (bans : BanData) (k : ℕ) (ban : BannedHost)
      → memory_lookup bans host ≡ some ban
      → ban.ban_time ≡ nth_duration config k
      → duration config (memory_lookup bans host) ≡ nth_duration config (suc k)
  duration-nth n host bans k ban e time =
      ap (duration config) e
      ∙ ap (λ x. min (x * config.ban_time_increase_factor) config.max_ban_time) time
      ∙ nth_grows k

  failing-Last :
      (host : String) (n : ℕ) (bans : BanData)
      → includes config.unbannable host ≡ false
      → Failing config host n bans
      → Last n host bans
  failing-Last host _ _ free (first now bans e) = (
    0,
    _,
    refl,
    lookup-declare_self config now host bans free (ap (is_banned now) e),
    ap (duration config) e ∙ nth_first,
  )
  failing-Last host _ _ free (again n now bans h idle) =
      let (k, ban, count, e, time) = failing-Last host n bans free h in
      (
        suc k,
        _,
        ap suc count,
        lookup-declare_self config now host bans free idle,
        duration-nth n host bans k ban e time,
      )
  failing-Last host _ _ free (meanwhile n bans bans' h same) =
      let (k, ban, count, e, time) = failing-Last host n bans free h in
      (k, ban, count, same ∙ e, time)

  -- If the first ban is no longer than the longest and the factor is at least 1, then a host that may
  -- be banned and has failed a number of times, each time while it was not banned, was last banned for
  -- the first ban's time, multiplied by the factor at each failure after the first, and at most for
  -- the longest ban's.
  pub failing-nth_duration :
      (n : ℕ) (host : String) (bans : BanData)
      → includes config.unbannable host ≡ false
      → Failing config host (suc n) bans
      → (ban : BannedHost) × (memory_lookup bans host ≡ some ban)
        × (ban.ban_time ≡ nth_duration config n)
  failing-nth_duration n host bans free h =
      let (k, ban, count, e, time) = failing-Last host (suc n) bans free h in
      let same : k ≡ n = omega arith in (ban, e, time ∙ ap (nth_duration config) same)
