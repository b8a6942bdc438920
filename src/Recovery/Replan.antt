-- ===== src/Recovery/Replan.antt =====
-- When the work of a reservation may be planned again: public/reservation-recovery.js.
use clairveil_samples.Js.{Value}
use clairveil_samples.Prelude.{
  All, Bool, List, Option, String, false, has, length, map, not, some_of, true, unique, ℕ, ◌&&◌,
  ◌===◌, ◌||◌, ◌≡◌,
}
use clairveil_samples.Recovery.Assess.{
  Signs, is_empty_list, is_foreign, is_malformed, live_records, only_or, preparation_statuses,
}
use clairveil_samples.Recovery.Records.{broadcast_attempted_of, relay_handed_off_of, status_of}

-- A record of which nothing may have reached the network.
pub record Untouched (v : Value) : Type 0 where
  pub attempted : broadcast_attempted_of v ≡ false
  pub handed_off : relay_handed_off_of v ≡ false

-- When the work may be planned again: the records share one status of the preparation, nothing of them
-- may have reached the network, no proof is being made, and the live leases are the worker's own, with
-- one owner and one token.
pub record Replannable (parse_date : String → Option ℕ) (lease_owner : String) (now : ℕ)
    (records : List Value) : Type 0 where
  pub present : is_empty_list records ≡ false
  pub one_status : length (unique (map status_of records)) ≡ 1
  pub in_preparation :
      has (only_or "Mixed" (unique (map status_of records))) preparation_statuses ≡ true
  pub untouched : All Untouched records
  pub not_proving :
      (only_or "Mixed" (unique (map status_of records)) === "Proving"
        && not (is_empty_list (live_records parse_date now records)))
      ≡ false
  pub own_leases : some_of (is_foreign lease_owner) (live_records parse_date now records) ≡ false
  pub one_lease : is_malformed (live_records parse_date now records) ≡ false

abbrev replans : Signs → Bool
replans s =
    not s.empty
    && s.one_status
    && not s.handed_off
    && not (s.attempted || s.in_transaction)
    && s.in_preparation
    && not (s.proving && s.live)
    && not s.foreign
    && not s.malformed
