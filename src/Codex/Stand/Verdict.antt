-- ===== src/Codex/Stand/Verdict.antt =====
-- The protected cell of the tests of src/codex.rs, the verification of an operation that names it, and
-- what is expected of each token and witness.
use mathlib.Core.Option.{some-injective, none-ne-some}
use ultrasonic.Prelude.{
  ℕ, ◌≡◌, ◌≢◌, refl, sym, ap, ◌∙◌, none, some, List, [], ◌∷◌, get_elem?, true, ==_refl,
}
use ultrasonic.Externals.{Externals}
use ultrasonic.State.{StateCell}
use ultrasonic.State.Value.{StateValue, into_iter}
use ultrasonic.State.Auth.{AuthToken, to_fe256}
use ultrasonic.Ids.{opid_eq_iff}
use ultrasonic.Operation.{CellAddr, Input, Operation, VerifiedOperation, new_unchecked}
use ultrasonic.Codex.{Codex, Memory, LibRepo, Runtime}
use ultrasonic.Codex.Outcome.{Outcome, ok, err, lock}
use ultrasonic.Codex.Verify.{verify}
use ultrasonic.Codex.Stand.Script.{Faulty, no_token, no_witness, too_much}
use ultrasonic.Codex.Stand.{
  secret, lib_lock, Bench, addr_eq, get, insert, memory_of, repo_of, contract_id, prepared,
  test_stand_repo, test_stand_script,
}
use ultrasonic.Codex.Stand.Cases.{with_cell, protected}

pub addr_eq_refl : (addr : CellAddr) → addr_eq addr addr ≡ true
unfolding addr_eq
addr_eq_refl addr = rw ((opid_eq_iff addr.opid addr.opid).1 refl) (==_refl addr.pos)

-- What was inserted is found.
pub get-insert {ℓ} :
    {V : Type ℓ} (entries : List (CellAddr × V)) (addr : CellAddr) (value : V)
    → get (insert entries addr value) addr ≡ some value
unfolding get insert
get-insert entries addr value = rw (addr_eq_refl addr) refl

module _ {E : Externals} (runtime : Runtime E) (bench : Bench E) where
  open runtime use {lock_vm, main_vm, regs, lib_id}
  open bench.asm use {stop}
  open regs use {ea, e1, e2, e3, e4, e5, e8}
  open bench use {lib_site, fe256}

  abbrev pub key : E.Fe
  key = fe256 secret

  -- The complexity that the stand allows.
  abbrev pub limit : ℕ
  limit = 10000000

  module _ (auth : AuthToken E.Fe) (witness : StateValue E.Fe) where
    -- The protected cell, the operation that names it, and what they are verified with.
    abbrev pub cell : StateCell E
    cell = record {
      «data» = StateValue.none;
      auth = auth;
      lock = some (lib_site (lib_id (lib_lock runtime bench)) 1);
    }

    abbrev pub input : Input E.Fe
    input = record { addr = bench.dumb_addr; witness = witness }

    abbrev pub operation : Operation E
    operation = record bench.dumb_operation {
      contract_id = contract_id runtime bench;
      call_id = 0;
      destructible_in = input ∷ [];
    }

    abbrev pub codex : Codex E
    codex = record bench.dumb_codex {
      field_order = bench.field_order_secp;
      verification_config = bench.core_config true (some limit);
      input_config = bench.core_config true (some limit);
      verifiers = (0, lib_site (lib_id (lib_lock runtime bench)) 0) ∷ [];
    }

    abbrev pub memory : Memory E
    memory = memory_of (record { destructible = insert [] bench.dumb_addr cell; immutable = [] })

    abbrev pub repo : LibRepo E
    repo = repo_of runtime (lib_lock runtime bench)

    -- The test is this verification.
    pub protected-verify :
        protected runtime bench auth 1 witness
        ≡ verify runtime repo codex (contract_id runtime bench) operation memory
    unfolding protected test_stand_script test_stand_repo prepared with_cell
    protected-verify = refl

    pub found : memory.destructible bench.dumb_addr ≡ some cell
    unfolding memory_of
    found = get-insert [] bench.dumb_addr cell

    -- What each token and witness brings about.
    pub data Verdict : Outcome E.Fe (VerifiedOperation E) → Type 0 where
      opened :
          to_fe256 auth ≡ key
          → into_iter witness ≡ key ∷ []
          → Verdict (ok (new_unchecked (runtime.opid operation) operation))
      refused :
          (n : ℕ)
          → Faulty key
              (some (to_fe256 auth))
              (get_elem? (into_iter witness) 0)
              (get_elem? (into_iter witness) 1 ≢ none)
              n
          → Verdict (err (lock (some (fe256 n))))

    more_Verdict :
        (rest : List E.Fe)
        → to_fe256 auth ≡ key
        → get_elem? (into_iter witness) 0 ≡ some key
        → get_elem? (into_iter witness) 1 ≡ get_elem? rest 0
        → into_iter witness ≡ key ∷ rest
        → (outcome : Outcome E.Fe (VerifiedOperation E)) × Verdict outcome
    more_Verdict [] token first _ e = (_, opened token e)
    more_Verdict (y ∷ rest) token first given_second e = (
      _,
      refused 3
          (too_much (ap some token) first (λ absent. none-ne-some y (sym absent ∙ given_second))),
    )

    given-Verdict :
        ((a b : E.Fe) → Dec (a ≡ b))
        → to_fe256 auth ≡ key
        → (given : List E.Fe) → into_iter witness ≡ given
        → (outcome : Outcome E.Fe (VerifiedOperation E)) × Verdict outcome
    given-Verdict same token [] e =
        (_, refused 2 (no_witness (ap some token) (λ first. cc (first, e, nothing_first))))
      where
        nothing_first : get_elem? {A = E.Fe} [] 0 ≡ none
        nothing_first = refl
    given-Verdict same token (x ∷ rest) e = elim (same x key) [
      | no other ↦ (
        _,
        refused 2 (
            no_witness (ap some token)
              (λ first. other (some-injective _ _ (sym (item 0) ∙ first)))),
      )
      | yes first ↦
          more_Verdict rest token (item 0 ∙ ap some first) (item 1) (e ∙ ap (λ y. y ∷ rest) first)
    ]
      where
        item : (k : ℕ) → get_elem? (into_iter witness) k ≡ get_elem? (x ∷ rest) k
        item k = ap (λ (xs : List E.Fe). get_elem? xs k) e

    pub verdict :
        ((a b : E.Fe) → Dec (a ≡ b))
        → (outcome : Outcome E.Fe (VerifiedOperation E)) × Verdict outcome
    verdict same = elim (same (to_fe256 auth) key) [
      | yes token ↦ given-Verdict same token (into_iter witness) refl
      | no other ↦ (_, refused 1 (no_token (λ e. other (some-injective _ _ e))))
    ]
