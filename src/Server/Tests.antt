-- ===== src/Server/Tests.antt =====
-- Runs of the server's submissions, and the theorems at concrete inputs.
use clairveil_samples.Js.{
  Value, boolean, end, field, get, get_field, has_own, is_space, nat, null, number, object,
  safe_nat, string, text_of, text_or_empty, trim, trim_end, trim_start, truthy,
}
use clairveil_samples.Prelude.{
  Option, [], choose, false, ltb, none, ok, refl, some, true, ℕ, ◌↔◌, ◌≡◌, ◌⊎◌,
}
use clairveil_samples.Server.Fence.{Resolves, begin_turn_fenced, thrown_turn_fences}
use clairveil_samples.Server.Outcomes.{
  assert_cosmos_check_tx_accepted, check_tx_accepted, confirmed_cosmos_tx_code, known_outcome,
  refuse, tracked_cosmos_known_iff, tracked_cosmos_submission_outcome,
}
use clairveil_samples.Server.Serializer.{
  Account, Answer, Turn, answers, begin_turn, fresh_account, has_unknown_outcome, leave_turn,
  new_turn, normalized_account_key, reconcile_unknown_entry, turn_threw,
}

abbrev accepted_tx : Value
accepted_tx = object (field "code" (number (nat 0)) end)

accepted_is_taken : assert_cosmos_check_tx_accepted accepted_tx (ok tt) ≡ ok (some 0)
unfolding assert_cosmos_check_tx_accepted confirmed_cosmos_tx_code get get_field safe_nat
accepted_is_taken = refl

check_tx_accepted_example :
    (◌≡◌ {A = Option ℕ} (some 0) (some 0) × (confirmed_cosmos_tx_code accepted_tx ≡ some 0))
    ⊎ (◌≡◌ {A = Option ℕ} (some 0) none × (has_own "code" accepted_tx ≡ false))
check_tx_accepted_example = check_tx_accepted accepted_tx (ok tt) (some 0) accepted_is_taken

tracked_cosmos_known_iff_example :
    (tracked_cosmos_submission_outcome accepted_tx null (some refuse) ≡ ok (known_outcome false))
    ↔ ((n : ℕ) × (truthy accepted_tx ≡ true)
        × (confirmed_cosmos_tx_code accepted_tx ≡ some n)
        × (known_outcome false ≡ known_outcome (ltb 0 n)))
tracked_cosmos_known_iff_example = tracked_cosmos_known_iff accepted_tx null (known_outcome false)

abbrev unknown_account : Account
unknown_account = record fresh_account { pending = 1; outcome_unknown = true }

abbrev found_on_chain : Value → Answer
found_on_chain evidence = answers (boolean true)

begins_after_reconciling : (begin_turn unknown_account (some found_on_chain)).1 ≡ ok tt
unfolding begin_turn reconcile_unknown_entry choose
begins_after_reconciling = refl

begin_turn_fenced_example :
    unknown_account.outcome_unknown ≡ false ⊎ Resolves unknown_account (some found_on_chain)
begin_turn_fenced_example =
    begin_turn_fenced unknown_account (some found_on_chain) begins_after_reconciling

abbrev crossed_turn : Turn
crossed_turn = record new_turn { submission_started = true }

key_is_named : normalized_account_key (string "signer") ≡ ok "signer"
unfolding normalized_account_key trim trim_start trim_end is_space text_or_empty text_of truthy
key_is_named = refl

thrown_turn_fences_example :
    has_unknown_outcome
      (string "signer")
      (leave_turn "signer" (turn_threw "timeout" crossed_turn fresh_account) [])
    ≡ ok true
thrown_turn_fences_example =
    thrown_turn_fences (string "signer") "signer" "timeout" crossed_turn fresh_account []
      key_is_named refl refl
