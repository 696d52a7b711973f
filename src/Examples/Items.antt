-- ===== src/Examples/Items.antt =====
-- Encodings of the items of operations and issues.
use ultrasonic.Prelude.{
  ℕ, suc, ◌≡◌, refl, sym, ap, ◌∙◌, Bool, true, false, List, [], ◌∷◌, arith, Bytes, Option, none,
  some, done,
}
use ultrasonic.State.{StateCell}
use ultrasonic.State.Value.{StateValue, into_iter, from_iter}
use ultrasonic.State.Value.RoundTrip.{from_iter-into_iter}
use ultrasonic.Operation.{CellAddr, Input}
use ultrasonic.Operation.Commit.{Encoders}
use ultrasonic.Operation.Commit.Binding.{IsInjective, Unambiguous}
use ultrasonic.Codex.{Codex}
use ultrasonic.Issue.{ContractName, ContractMeta, IssueEncoders}
use ultrasonic.Issue.Consensus.{into_u8, try_from_u8_iff}
use ultrasonic.Issue.Binding.{IssueUnambiguous}
use ultrasonic.Examples.Machine.{outside}
use ultrasonic.Examples.Encodings.{framed, framed-injective}

into_iter-injective : (v w : StateValue ℕ) → into_iter v ≡ into_iter w → v ≡ w
into_iter-injective v w e =
    let same : done v ≡ done w =
      sym (from_iter-into_iter v) ∙ ap from_iter e ∙ from_iter-into_iter w in
    cc

pub write_addr : CellAddr → Bytes
write_addr addr = addr.pos ∷ addr.opid.bytes

write_addr-injective : IsInjective write_addr
unfolding write_addr
write_addr-injective a b e =
    let pos : a.pos ≡ b.pos = cc in
    let bytes : a.opid.bytes ≡ b.opid.bytes = cc in
    λ i. record { opid = record { bytes = bytes i }; pos = pos i }

pub write_input : Input ℕ → Bytes
unfolding write_addr
write_input input = framed (write_addr input.addr) (into_iter input.witness)

write_input-injective : IsInjective write_input
unfolding write_input
write_input-injective a b e =
    let (same, rest) = framed-injective _ _ _ _ e in
    let addr : a.addr ≡ b.addr = write_addr-injective _ _ same in
    let witness : a.witness ≡ b.witness = into_iter-injective _ _ rest in
    λ i. record { addr = addr i; witness = witness i }

write_lock : Option ℕ → ℕ
write_lock none = 0
write_lock (some site) = suc site

write_lock-injective : IsInjective write_lock
unfolding write_lock
write_lock-injective none none e = refl
write_lock-injective none (some b) e = absurd (omega arith)
write_lock-injective (some a) none e = absurd (omega arith)
write_lock-injective (some a) (some b) e = ap some (omega arith)

pub write_cell : StateCell outside → Bytes
unfolding write_lock
write_cell cell = write_lock cell.lock ∷ cell.auth.fe ∷ into_iter cell.«data»

write_cell-injective : IsInjective write_cell
unfolding write_cell
write_cell-injective a b e =
    let lock : a.lock ≡ b.lock = write_lock-injective _ _ (cc) in
    let fe : a.auth.fe ≡ b.auth.fe = cc in
    let content : a.«data» ≡ b.«data» = into_iter-injective _ _ (cc) in
    λ i. record { «data» = content i; auth = record { fe = fe i }; lock = lock i }

abbrev pub encoders : Encoders outside
encoders = record {
  version = λ v. [];
  contract_id = λ c. c.bytes;
  call_id = λ n. n ∷ [];
  nonce = λ n. n ∷ [];
  input = write_input;
  addr = write_addr;
  cell = write_cell;
  value = into_iter;
  raw = λ b. b;
}

pub encoders-Unambiguous : Unambiguous encoders
encoders-Unambiguous = record {
  version = λ v w e. refl;
  contract_id = λ a b e. λ i. record { bytes = e i };
  call_id = λ a b e. cc;
  nonce = λ a b e. cc;
  input = write_input-injective;
  addr = write_addr-injective;
  cell = write_cell-injective;
  value = into_iter-injective;
  raw = λ a b e. e;
}

write_name : ContractName → Bytes
write_name ContractName.unnamed = []
write_name (ContractName.named text) = 0 ∷ text

write_name-injective : IsInjective write_name
unfolding write_name
write_name-injective ContractName.unnamed ContractName.unnamed e = refl
write_name-injective ContractName.unnamed (ContractName.named b) e = cc
write_name-injective (ContractName.named a) ContractName.unnamed e = cc
write_name-injective (ContractName.named a) (ContractName.named b) e = cc

write_bool : Bool → ℕ
write_bool true = 1
write_bool false = 0

write_bool-injective : IsInjective write_bool
unfolding write_bool
write_bool-injective true true e = refl
write_bool-injective true false e = absurd (omega arith)
write_bool-injective false true e = absurd (omega arith)
write_bool-injective false false e = refl

into_u8-injective : IsInjective into_u8
into_u8-injective a b e =
    let left : _ = (try_from_u8_iff (into_u8 a) a).1 refl in
    let right : _ = (try_from_u8_iff (into_u8 a) b).1 e in cc

pub write_meta : ContractMeta → Bytes
unfolding write_name write_bool
write_meta meta =
    write_bool meta.testnet
    ∷ into_u8 meta.consensus
    ∷ meta.timestamp
    ∷ framed (write_name meta.name) meta.issuer

write_meta-injective : IsInjective write_meta
unfolding write_meta
write_meta-injective a b e =
    let testnet : a.testnet ≡ b.testnet = write_bool-injective _ _ (cc) in
    let consensus : a.consensus ≡ b.consensus = into_u8-injective _ _ (cc) in
    let timestamp : a.timestamp ≡ b.timestamp = cc in
    let (text, issuer) =
      framed-injective (write_name a.name) (write_name b.name) a.issuer b.issuer (cc) in
    let name : a.name ≡ b.name = write_name-injective _ _ text in
    λ i. record {
      testnet = testnet i;
      consensus = consensus i;
      timestamp = timestamp i;
      name = name i;
      issuer = issuer i;
    }

flat : List (ℕ × ℕ) → Bytes
flat [] = []
flat ((key, value) ∷ rest) = key ∷ value ∷ flat rest

flat-injective : IsInjective flat
unfolding flat
flat-injective [] [] e = refl
flat-injective [] (y ∷ ys) e = cc
flat-injective (x ∷ xs) [] e = cc
flat-injective ((k, v) ∷ xs) ((k', v') ∷ ys) e =
    let key : k ≡ k' = cc in
    let value : v ≡ v' = cc in
    let rest : xs ≡ ys = flat-injective xs ys (cc) in λ i. (key i, value i) ∷ rest i

pub write_codex : Codex outside → Bytes
unfolding flat
write_codex codex =
    codex.timestamp
    ∷ codex.field_order
    ∷ codex.input_config
    ∷ codex.verification_config
    ∷ framed codex.name (framed codex.developer (flat codex.verifiers))

write_codex-injective : IsInjective write_codex
unfolding write_codex
write_codex-injective a b e =
    let timestamp : a.timestamp ≡ b.timestamp = cc in
    let field_order : a.field_order ≡ b.field_order = cc in
    let input_config : a.input_config ≡ b.input_config = cc in
    let verification_config : a.verification_config ≡ b.verification_config = cc in
    let (name, rest) =
      framed-injective a.name b.name (framed a.developer (flat a.verifiers))
        (framed b.developer (flat b.verifiers)) (cc) in
    let (developer, table) =
      framed-injective a.developer b.developer (flat a.verifiers) (flat b.verifiers) rest in
    let verifiers : a.verifiers ≡ b.verifiers = flat-injective _ _ table in
    λ i. record {
      version = tt;
      name = name i;
      developer = developer i;
      timestamp = timestamp i;
      field_order = field_order i;
      input_config = input_config i;
      verification_config = verification_config i;
      verifiers = verifiers i;
    }

abbrev pub issue_encoders : IssueEncoders outside
issue_encoders = record {
  version = λ v. [];
  meta = write_meta;
  codex = write_codex;
  codex_id = λ c. c.bytes;
  opid = λ o. o.bytes;
}

pub issue_encoders-IssueUnambiguous : IssueUnambiguous issue_encoders
issue_encoders-IssueUnambiguous = record {
  version = λ v w e. refl;
  meta = write_meta-injective;
  codex = write_codex-injective;
  codex_id = λ a b e. λ i. record { bytes = e i };
  opid = λ a b e. λ i. record { bytes = e i };
}
