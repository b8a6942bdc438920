-- ===== src/Server/Gate.antt =====
-- createRelayWithdrawSubmissionGate: the coordinator behind the identity of a payload. The preflight and
-- the submission themselves are the callback of the attempt that is started here.
use clairveil_samples.Coordinator.Run.{RunOutcome, relay_submission_idempotency_key, run_many}
use clairveil_samples.Coordinator.State.{Coordinator}
use clairveil_samples.Js.{
  Fields, Value, array, end, field, get, is_empty, is_nullish, is_object, null, object, of_list,
  string, text_of, trim,
}
use clairveil_samples.Prelude.{Result, String, if◌then◌else◌, map, not, ok, throw, true, ◌||◌}
use clairveil_samples.Relay.Preflight.{relay_payload_nullifiers}

abbrev evidence_field : String → Value → Fields → Fields
evidence_field key evidence rest =
    let value = trim (text_of (get key evidence)) in
    if is_nullish (get key evidence) || is_empty value then rest else field key (string value) rest

abbrev some_fields : Fields → Value
some_fields end = null
some_fields (field key value rest) = object (field key value rest)

-- readOnlySubmissionEvidence
unfoldable pub read_only_submission_evidence : Value → Value
read_only_submission_evidence evidence =
    if not (is_object evidence)
    then null
    else some_fields (
        evidence_field "transport" evidence (
          evidence_field "chainId" evidence
            (evidence_field "evmChainId" evidence (evidence_field "txHash" evidence end))))

-- `run`, after the reconciliation of its nullifiers, which is an event of its own.
unfoldable pub gate_run : Value → Coordinator → Coordinator × Result RunOutcome
gate_run payload c = elim (relay_payload_nullifiers payload) [
  | throw problem ↦ (c, throw problem)
  | ok nullifiers ↦ elim (relay_submission_idempotency_key payload) [
    | throw problem ↦ (c, throw problem)
    | ok key ↦ run_many (array (of_list (map string nullifiers))) (string key) true c
  ]
]
