-- ===== src/HostBans/Safety.antt =====
-- The bans after requests that failed or succeeded (server/lib/requests_temporary_host_ban.ts), as an
-- invariant.
use native.Mathlib.Nat.{mul-le-mul_left}
use inventaire.Base.{
  ℕ, ◌+◌, ◌*◌, ◌≤◌, min, String, Bool, true, false, Option, none, some, [], ◌∷◌, ◌==◌, string_eq,
  eq_iff, includes, if◌then◌else◌, ◌≡◌, ◌∙◌, refl, sym, subst, arith, Bool-cases, inl, inr,
}
use inventaire.Couch.{memory_lookup, memory_put, memory_lookup-put}
use inventaire.HostBans.{
  BannedHost, BanData, Config, reset_ban_data, next_ban, store_ban, declare_host_error,
  conditionally_declare_host_error, RequestError, aborted, unable_to_verify_leaf_signature,
  econnrefused, other_error,
}

lookup-reset :
    (host h : String) (bans : BanData)
    → memory_lookup (reset_ban_data host bans) h
      ≡ (if host == h then none else memory_lookup bans h)
unfolding reset_ban_data
lookup-reset host h [] = ground arith
lookup-reset host h ((k, ban) ∷ bans) =
    ground (arith, eq_iff k host, eq_iff k h, eq_iff host h, lookup-reset host h bans)

module _ (config : Config) where
  -- What a ban can be at time `now`.
  pub record Fits (now : ℕ) (host : String) (ban : BannedHost) : Type 0 where
    pub lower : config.base_ban_time ≤ ban.ban_time
    pub upper : ban.ban_time ≤ config.max_ban_time
    pub ends : ban.expire ≤ now + config.max_ban_time
    pub bannable : includes config.unbannable host ≡ false

  unfoldable pub IsBounded : ℕ → BanData → Type 0
  IsBounded now bans =
      (host : String) (ban : BannedHost) → memory_lookup bans host ≡ some ban → Fits now host ban

  -- The bans at a time, after requests that failed or succeeded.
  pub data Reach : ℕ → BanData → Type 0 where
    begun : (now : ℕ) → Reach now []
    waited : (now later : ℕ) (bans : BanData) → now ≤ later → Reach now bans → Reach later bans
    request_failed :
        (now : ℕ) (host : String) (e : RequestError) (no_ban : Bool) (bans : BanData)
        → Reach now bans
        → Reach now (conditionally_declare_host_error config now host e no_ban bans)
    request_succeeded :
        (now : ℕ) (host : String) (bans : BanData)
        → Reach now bans
        → Reach now (reset_ban_data host bans)

  module _ (base_le_max : config.base_ban_time ≤ config.max_ban_time)
      (grows : 1 ≤ config.ban_time_increase_factor) where
    le-grown : (b : ℕ) → b ≤ b * config.ban_time_increase_factor
    le-grown b = omega (arith, mul-le-mul_left b grows)

    first_ban-Fits :
        (now : ℕ) (host : String) (ban : BannedHost)
        → includes config.unbannable host ≡ false
        → next_ban config now none ≡ some ban
        → Fits now host ban
    unfolding next_ban
    first_ban-Fits now host ban free e =
        let (time, ends) : (ban.ban_time ≡ config.base_ban_time)
            × (ban.expire ≡ now + config.base_ban_time) =
          ground arith in
        record { lower = omega arith; upper = omega arith; ends = omega arith; bannable = free }

    renewed_ban-Fits :
        (now : ℕ) (host : String) (old ban : BannedHost)
        → Fits now host old
        → next_ban config now (some old) ≡ some ban
        → Fits now host ban
    unfolding next_ban
    renewed_ban-Fits now host old ban fits e =
        let grown = min (old.ban_time * config.ban_time_increase_factor) config.max_ban_time in
        let (time, ends) : (ban.ban_time ≡ grown) × (ban.expire ≡ now + grown) = ground arith in
        record {
          lower = omega (arith, le-grown old.ban_time, fits.lower);
          upper = omega arith;
          ends = omega arith;
          bannable = fits.bannable;
        }

    next_ban-Fits :
        (now : ℕ) (host : String) (o : Option BannedHost) (ban : BannedHost)
        → includes config.unbannable host ≡ false
        → ((old : BannedHost) → o ≡ some old → Fits now host old)
        → next_ban config now o ≡ some ban
        → Fits now host ban
    next_ban-Fits now host none ban free h e = first_ban-Fits now host ban free e
    next_ban-Fits now host (some old) ban free h e =
        renewed_ban-Fits now host old ban (h old refl) e

    put-IsBounded :
        (now : ℕ) (host : String) (ban : BannedHost) (bans : BanData)
        → Fits now host ban
        → IsBounded now bans
        → IsBounded now (memory_put bans host ban)
    unfolding IsBounded
    put-IsBounded now host ban bans fits h other b e = elim (Bool-cases (host == other)) [
      | inl same ↦
          let e' : some ban ≡ some b =
            sym (memory_lookup-put bans host other ban ∙ (rw same refl)) ∙ e in
          let is_b : ban ≡ b = ground arith in
          subst (λ x. Fits now x b) ((eq_iff host other).0 same)
            (subst (λ x. Fits now host x) is_b fits)
      | inr apart ↦ h other b (sym (memory_lookup-put bans host other ban ∙ (rw apart refl)) ∙ e)
    ]

    store-IsBounded :
        (now : ℕ) (host : String) (o : Option BannedHost) (bans : BanData)
        → ((ban : BannedHost) → o ≡ some ban → Fits now host ban)
        → IsBounded now bans
        → IsBounded now (store_ban host bans o)
    store-IsBounded now host none bans fits h = h
    store-IsBounded now host (some ban) bans fits h =
        put-IsBounded now host ban bans (fits ban refl) h

    declare-IsBounded :
        (now : ℕ) (host : String) (bans : BanData)
        → IsBounded now bans
        → IsBounded now (declare_host_error config now host bans)
    unfolding IsBounded declare_host_error
    declare-IsBounded now host bans h = elim (Bool-cases (includes config.unbannable host)) [
      | inl e ↦ rw e h
      | inr free ↦ rw free (
          store-IsBounded now host (next_ban config now (memory_lookup bans host)) bans
            (λ ban e. next_ban-Fits now host (memory_lookup bans host) ban free (h host) e) h)
    ]

    request_failed-IsBounded :
        (now : ℕ) (host : String) (e : RequestError) (no_ban : Bool) (bans : BanData)
        → IsBounded now bans
        → IsBounded now (conditionally_declare_host_error config now host e no_ban bans)
    unfolding conditionally_declare_host_error
    request_failed-IsBounded now host aborted true bans h = h
    request_failed-IsBounded now host aborted false bans h = declare-IsBounded now host bans h
    request_failed-IsBounded now host unable_to_verify_leaf_signature _ bans h =
        declare-IsBounded now host bans h
    request_failed-IsBounded now host econnrefused _ bans h = declare-IsBounded now host bans h
    request_failed-IsBounded now host other_error _ bans h = h

    reset-IsBounded :
        (now : ℕ) (host : String) (bans : BanData)
        → IsBounded now bans
        → IsBounded now (reset_ban_data host bans)
    unfolding IsBounded
    reset-IsBounded now host bans h other ban e =
        h other ban (ground (arith, lookup-reset host other bans))

    later-IsBounded :
        (now later : ℕ) (bans : BanData) → now ≤ later → IsBounded now bans → IsBounded later bans
    unfolding IsBounded
    later-IsBounded now later bans le h host ban e =
        let f = h host ban e in
        record {
          lower = f.lower;
          upper = f.upper;
          ends = omega (arith, f.ends);
          bannable = f.bannable;
        }

    empty-IsBounded : (now : ℕ) → IsBounded now []
    unfolding IsBounded
    empty-IsBounded now host ban e = absurd (ground arith)

    -- If the first ban is no longer than the longest and the factor is at least 1, then after any
    -- requests that failed or succeeded every ban lasts from the first ban's time to the longest, ends
    -- no later than the longest ban's time from now, and is of no host that may not be banned.
    pub Reach-IsBounded : (now : ℕ) (bans : BanData) → Reach now bans → IsBounded now bans
    Reach-IsBounded _ _ (begun now) = empty-IsBounded now
    Reach-IsBounded _ _ (waited now later bans le r) =
        later-IsBounded now later bans le (Reach-IsBounded now bans r)
    Reach-IsBounded _ _ (request_failed now host e no_ban bans r) =
        request_failed-IsBounded now host e no_ban bans (Reach-IsBounded now bans r)
    Reach-IsBounded _ _ (request_succeeded now host bans r) =
        reset-IsBounded now host bans (Reach-IsBounded now bans r)
