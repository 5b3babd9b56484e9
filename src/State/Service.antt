-- ===== src/State/Service.antt =====
-- How the state of src/state.rs is built, reloaded and asked: `new` and the builders, `reload`, and
-- `resolve`, which connections use. The files and the parsed settings are arguments.
use mini_dns.Prelude.{
  ℕ, ◌+◌, ◌≡◌, refl, ◌⊎◌, inl, inr, Bool, true, false, Option, none, some, List, [], ◌∷◌,
  if◌then◌else◌, Bool-cases,
}
use mini_dns.Text.{Text, ends_with}
use mini_dns.Net.{IpAddr}
use mini_dns.DashMap.{DashMap}
use mini_dns.Acl.{Acl, deny_all}
use mini_dns.Cache.{Key, Entry, Cache}
use mini_dns.RateLimit.{Window, RateLimiter}
use mini_dns.RateLimit
use mini_dns.Blocklist.{Blocklist}
use mini_dns.Blocklist
use mini_dns.Zones.{Zone, ZoneSet, ForwardRules, from_records}
use mini_dns.Zones.Load.{ZoneSettings, load_zone_file, load_zones_from_settings}
use mini_dns.Metrics
use mini_dns.Dnssec.{DnssecKeys, Ed25519}
use mini_dns.State.{udp, tcp}
use mini_dns.State.Local.{
  ForwardCtx, Resolution, ready, forward, drop, panicked, Call, ServerState, resolve_local,
}
use mini_dns.State.Axfr.{Transfer, not_axfr, reply, try_axfr}
use mini_dns.Server.{Served, sent, silent}

-- What `reload` uses of the settings of a config file.
pub record Settings : Type 0 where
  pub zone : Option (List ZoneSettings)
  pub has_blocklist : Bool

-- `path.ends_with(".toml")`.
abbrev pub is_config : Text → Bool
is_config path = ends_with path (b'.' ∷ b't' ∷ b'o' ∷ b'm' ∷ b'l' ∷ [])

module _ (CM : DashMap Key Entry) (LM : DashMap IpAddr Window) (crypto : Ed25519) where
  abbrev pub State : Type 0
  State = ServerState CM LM crypto

  unfoldable pub new :
      ZoneSet
      → Option Text
      → ForwardRules
      → (forwarder : Bool) → Cache CM.Map
      → RateLimiter LM.Map
      → State
  new zones zone_path forward_rules forwarder cache limiter = record {
    zones = zones;
    zone_path = zone_path;
    forward_rules = forward_rules;
    forwarder = forwarder;
    recursive = false;
    cache = cache;
    limiter = limiter;
    blocklist = Blocklist.empty;
    dns64_prefix = none;
    axfr_acl = deny_all;
    dnssec_keys = none;
    metrics = Metrics.default;
  }

  abbrev pub with_blocklist : Blocklist → State → State
  with_blocklist blocklist s = record s { blocklist = blocklist }

  abbrev pub with_dns64 : List ℕ → State → State
  with_dns64 prefix s = record s { dns64_prefix = some prefix }

  abbrev pub with_axfr_acl : Acl → State → State
  with_axfr_acl acl s = record s { axfr_acl = acl }

  abbrev pub with_recursive : State → State
  with_recursive s = record s { recursive = true }

  abbrev pub with_dnssec : DnssecKeys → State → State
  with_dnssec keys s = record s { dnssec_keys = some keys }

  abbrev pub cleanup_rate_limiter : State → (now : ℕ) → State
  cleanup_rate_limiter s now = record s { limiter = RateLimit.cleanup LM s.limiter now }

  -- The zones, and where the settings have one the blocklist, which stays as it is if its file fails.
  unfoldable pub reload_config : (read : Text → Option Text) → Settings → State → Bool × State
  reload_config read settings s = elim (load_zones_from_settings read settings.zone) [
    | none ↦ (false, s)
    | some zones ↦ (
      true,
      record s {
        zones = zones;
        blocklist =
            if settings.has_blocklist then (Blocklist.reload read s.blocklist).0 else s.blocklist;
      },
    )
  ]

  unfoldable pub reload_zone : Option Zone → State → Bool × State
  reload_zone none s = (false, s)
  reload_zone (some zone) s = (true, record s { zones = from_records zone })

  -- Whether it went well, and the state after it.
  unfoldable pub reload :
      (read : Text → Option Text) (load_settings : Text → Option Settings) → State → Bool × State
  reload read load_settings s = elim s.zone_path [
    | none ↦ (true, s)
    | some path ↦
        if is_config path
        then (elim (load_settings path) [
          | none ↦ (false, s)
          | some settings ↦ reload_config read settings s
        ])
        else reload_zone (load_zone_file (read path)) s
  ]

  -- A reply of `try_axfr`, or the ordinary path where there is none.
  unfoldable pub transfer_or : State → Call → List ℕ → Transfer × State → Resolution × State
  transfer_or s c req (reply bytes, s') = (ready bytes, s')
  transfer_or s c req (not_axfr, s') = resolve_local CM LM crypto s' c req
  transfer_or s c req (Transfer.panicked, s') = (panicked, s')

  -- `resolve`, up to the await of `forward_ctx`.
  unfoldable pub resolve : State → Call → List ℕ → Resolution × State
  resolve s c req = elim c.transport [
    | tcp ↦ transfer_or s c req (try_axfr CM LM crypto s c req)
    | udp ↦ resolve_local CM LM crypto s c req
  ]

  -- The end of `resolve`; `relay` is what awaiting `forward_ctx` comes to.
  unfoldable pub relayed :
      (relay : ForwardCtx → State → List ℕ × State) → Resolution × State → Served × State
  relayed relay (ready bytes, s) = (sent bytes, s)
  relayed relay (drop, s) = (silent, s)
  relayed relay (panicked, s) = (Served.panicked, s)
  relayed relay (forward ctx, s) = let (bytes, s') = relay ctx s in (sent bytes, s')

  -- What a connection asks for with its next message; `calls` tells the clocks for each.
  unfoldable pub serve :
      (relay : ForwardCtx → State → List ℕ × State) (calls : ℕ → Call)
      → ℕ × State
      → List ℕ
      → Served × (ℕ × State)
  serve relay calls (n, s) message =
      let (served, s') = relayed relay (resolve s (calls n) message) in (served, (n + 1, s'))

  -- Nothing but the zones and the blocklist is replaced.
  abbrev pub Replaced : State → State → Type 0
  Replaced s t =
      (zones : ZoneSet) × (blocklist : Blocklist) × (t
        ≡ record s { zones = zones; blocklist = blocklist })

  abbrev pub Reloads : State → Bool × State → Type 0
  Reloads s (went_well, t) = ((went_well ≡ false) × (t ≡ s)) ⊎ ((went_well ≡ true) × Replaced s t)

  reload_config-Reloads :
      (read : Text → Option Text) (settings : Settings) (s : State)
      → Reloads s (reload_config read settings s)
  unfolding reload_config
  reload_config-Reloads read settings s = loaded (load_zones_from_settings read settings.zone)
    where
      list : Blocklist
      list = if settings.has_blocklist then (Blocklist.reload read s.blocklist).0 else s.blocklist

      loaded :
          (o : Option ZoneSet)
          → Reloads s (elim o as (λ _. Bool × State) [
            | none ↦ (false, s)
            | some zones ↦ (true, record s { zones = zones; blocklist = list })
          ])
      loaded none = inl (refl, refl)
      loaded (some zones) = inr (refl, (zones, list, refl))

  -- A reload that fails leaves the state as it was, and one that goes well replaces the zones and the
  -- blocklist alone: the rules, the cache, the limiter and the counters stay.
  pub reload-Reloads :
      (read : Text → Option Text) (load_settings : Text → Option Settings) (s : State)
      → Reloads s (reload read load_settings s)
  unfolding reload reload_zone
  reload-Reloads read load_settings s = by_path s.zone_path
    where
      zone : (o : Option Zone) → Reloads s (reload_zone o s)
      zone none = inl (refl, refl)
      zone (some z) = inr (refl, (from_records z, s.blocklist, refl))

      config :
          (o : Option Settings)
          → Reloads s (elim o as (λ _. Bool × State) [
            | none ↦ (false, s)
            | some settings ↦ reload_config read settings s
          ])
      config none = inl (refl, refl)
      config (some settings) = reload_config-Reloads read settings s

      by_path :
          (o : Option Text)
          → Reloads s (elim o as (λ _. Bool × State) [
            | none ↦ (true, s)
            | some path ↦
                if is_config path
                then (elim (load_settings path) as (λ _. Bool × State) [
                  | none ↦ (false, s)
                  | some settings ↦ reload_config read settings s
                ])
                else reload_zone (load_zone_file (read path)) s
          ])
      by_path none = inr (refl, (s.zones, s.blocklist, refl))
      by_path (some path) = elim (Bool-cases (is_config path)) [
        | inl toml ↦ rw toml (config (load_settings path))
        | inr plain ↦ rw plain (zone (load_zone_file (read path)))
      ]
