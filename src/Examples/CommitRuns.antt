-- ===== src/Examples/CommitRuns.antt =====
-- Commitments of operations and issues (src/operation.rs, src/issue.rs), computed.
use ultrasonic.Prelude.{◌≡◌, ◌↔◌, ◌⊎◌, refl, true, [], ◌∷◌}
use ultrasonic.Operation.{Genesis, to_operation}
use ultrasonic.Operation.Commit.{opid, genesis_opid}
use ultrasonic.Operation.Commit.Binding.{opid-injective, genesis_opid_exact, SameForm, Clashing}
use ultrasonic.Issue.{Issue, ContractMeta, ContractName, contract_id}
use ultrasonic.Issue.Consensus.{Layer}
use ultrasonic.Issue.Binding.{contract_id_exact, SameIssue, FedIssue}
use ultrasonic.Operation.Commit.Collision.{Clash}
use ultrasonic.Examples.Machine.{outside}
use ultrasonic.Examples.Encodings.{plain, constant}
use ultrasonic.Examples.Items.{
  encoders, encoders-Unambiguous, issue_encoders, issue_encoders-IssueUnambiguous,
}
use ultrasonic.Examples.Contract.{operation, contract, genesis, codex}

opid-injective_example :
    (operation 3 40 ≡ operation 3 41) ⊎ Clashing constant encoders (operation 3 40) (operation 3 41)
unfolding opid
opid-injective_example =
    opid-injective constant encoders-Unambiguous (operation 3 40) (operation 3 41) refl

-- A genesis under another codex.
abbrev other_genesis : Genesis outside
other_genesis = record genesis { codex_id = record { bytes = 5 ∷ [] } }

abbrev pub meta : ContractMeta
meta = record {
  testnet = true;
  consensus = Layer.bitcoin;
  timestamp = 1;
  name = ContractName.unnamed;
  issuer = [];
}

abbrev pub issue : Genesis outside → Issue outside
issue g = record { version = tt; meta = meta; codex = codex; genesis = g }

genesis_opid_exact_example :
    (((genesis_opid plain encoders genesis contract
          ≡ genesis_opid plain encoders other_genesis contract)
        ↔ (SameForm genesis other_genesis × (contract ≡ contract)))
      ⊎ Clashing plain encoders
          (to_operation genesis contract)
          (to_operation other_genesis contract))
    × (genesis_opid plain encoders genesis contract ≡ opid plain encoders (operation 3 40)
        → (((operation 3 40).destructible_in ≡ []) × ((operation 3 40).immutable_in ≡ []))
          ⊎ Clashing plain encoders (to_operation genesis contract) (operation 3 40))
genesis_opid_exact_example =
    genesis_opid_exact plain encoders-Unambiguous genesis contract other_genesis contract
      (operation 3 40)

contract_id_exact_example :
    ((contract_id plain encoders issue_encoders (issue genesis)
        ≡ contract_id plain encoders issue_encoders (issue other_genesis))
      ↔ SameIssue (issue genesis) (issue other_genesis))
    ⊎ Clash plain
        (FedIssue plain encoders issue_encoders (issue genesis))
        (FedIssue plain encoders issue_encoders (issue other_genesis))
contract_id_exact_example =
    contract_id_exact plain encoders-Unambiguous issue_encoders-IssueUnambiguous (issue genesis)
      (issue other_genesis)
