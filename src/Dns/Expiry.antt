-- ===== src/Dns/Expiry.antt =====
-- The expiry tests of `DNSRecord`, against the share of the ttl that remains.
use lscamoflash.Prelude.{ℕ, ◌≤◌, true, ◌≡◌, ◌↔◌, arith, ◌*◌, ◌<◌}
use lscamoflash.Dns.{Record, is_expired, is_stale, is_recent, remaining_ttl_ms, get_expiration_time}

-- `is_expired`, `is_stale` and `is_recent` say how much of the ttl remains: none, at most half of it,
-- more than three quarters of it. A record is expired exactly from `get_expiration_time` at 100
-- percent on, stale from 50 percent on, and recent before 25 percent.
pub expiry_shares :
    (r : Record) (now : ℕ)
    → ((is_expired r now ≡ true) ↔ (remaining_ttl_ms r now ≡ 0))
      × ((is_stale r now ≡ true) ↔ (2 * remaining_ttl_ms r now ≤ 1000 * r.ttl))
      × ((is_recent r now ≡ true) ↔ (3 * (1000 * r.ttl) < 4 * remaining_ttl_ms r now))
      × ((is_expired r now ≡ true) ↔ (get_expiration_time r 100 ≤ now))
      × ((is_stale r now ≡ true) ↔ (get_expiration_time r 50 ≤ now))
      × ((is_recent r now ≡ true) ↔ (now < get_expiration_time r 25))
unfolding is_expired is_stale is_recent remaining_ttl_ms get_expiration_time
expiry_shares r now = ground arith
