-- ===== src/Examples/Contract.antt =====
-- A small contract: a lock opens for a witness whose first element is the number of the lock, and a
-- verifier accepts an operation that has an input.
use ultrasonic.Prelude.{
  ℕ, ◌≡◌, refl, ap, [], ◌∷◌, Bool, false, Option, none, some, ◌==◌, if◌then◌else◌, is_some,
  get_elem?, Partial, done, panicked,
}
use ultrasonic.Externals.{Status}
use ultrasonic.State.{StateCell}
use ultrasonic.State.Value.{StateValue}
use ultrasonic.Ids.{ContractId}
use ultrasonic.Operation.{CellAddr, Input, Operation, Genesis}
use ultrasonic.Operation.Commit.{opid}
use ultrasonic.Isa.Context.{VmContext}
use ultrasonic.Codex.{Codex, Memory, LibRepo, VmApi, Runtime}
use ultrasonic.Codex.Spec.{ResetLaws}
use ultrasonic.Codex.Panics.{PanicsInResolver}
use ultrasonic.Examples.Machine.{outside, names, RegisterFile, write, empty}
use ultrasonic.Examples.Encodings.{plain}
use ultrasonic.Examples.Items.{encoders}

pub record ScriptVm : Type 0 where
  pub config : ℕ
  pub order : ℕ
  pub file : RegisterFile

-- A run asks for the library of its site, and fails without one.
abbrev pub finish : ScriptVm → Bool → Partial (Option ℕ) → Partial (Status × ScriptVm)
finish vm passed panicked = panicked
finish vm passed (done none) = done (Status.fail, vm)
finish vm passed (done (some lib)) = done (if passed then Status.ok else Status.fail, vm)

abbrev pub holds : Option ℕ → ℕ → Bool
holds none n = false
holds (some m) n = m == n

abbrev pub make : ℕ → ℕ → ScriptVm
make config order = record { config = config; order = order; file = empty }

abbrev pub lock_vm : VmApi outside (Unit {0})
lock_vm = record {
  Vm = ScriptVm;
  with_config = make;
  set = λ vm r v. record vm { file = write vm.file r (some v) };
  get = λ vm r. vm.file r;
  exec = λ vm site context resolve. finish vm (holds (vm.file 5) site) (resolve site);
  reset = λ vm. make vm.config vm.order;
}

abbrev pub main_vm : VmApi outside (VmContext outside)
main_vm = record {
  Vm = ScriptVm;
  with_config = make;
  set = λ vm r v. record vm { file = write vm.file r (some v) };
  get = λ vm r. vm.file r;
  exec = λ vm site context resolve.
      finish vm (is_some (get_elem? context.destructible_input 0)) (resolve site);
  reset = λ vm. make vm.config vm.order;
}

finish-vm :
    (vm : ScriptVm) (b : Bool) (r : Partial (Option ℕ)) {s : Status} {vm' : ScriptVm}
    → finish vm b r ≡ done (s, vm')
    → vm' ≡ vm
finish-vm vm b panicked h = cc
finish-vm vm b (done none) h = cc
finish-vm vm b (done (some lib)) h = cc

finish-panicked :
    (vm : ScriptVm) (b : Bool) (r : Partial (Option ℕ)) → finish vm b r ≡ panicked → r ≡ panicked
finish-panicked vm b panicked h = refl
finish-panicked vm b (done none) h = cc
finish-panicked vm b (done (some lib)) h = cc

pub lock_vm-ResetLaws : ResetLaws lock_vm
lock_vm-ResetLaws = record {
  config_of = λ vm. vm.config;
  order_of = λ vm. vm.order;
  config_of-with_config = λ c n. refl;
  order_of-with_config = λ c n. refl;
  config_of-set = λ vm r v. refl;
  order_of-set = λ vm r v. refl;
  exec-keeps = λ vm site context resolve status vm' h.
      let same : vm' ≡ vm = finish-vm vm _ (resolve site) h in
      (ap (λ (v : ScriptVm). v.config) same, ap (λ (v : ScriptVm). v.order) same);
  reset_lem = λ vm. refl;
}

pub lock_vm-PanicsInResolver : PanicsInResolver lock_vm
lock_vm-PanicsInResolver vm site context resolve h = (site, finish-panicked vm _ _ h)

pub main_vm-PanicsInResolver : PanicsInResolver main_vm
main_vm-PanicsInResolver vm site context resolve h = (site, finish-panicked vm _ _ h)

abbrev pub runtime : Runtime outside
runtime = record {
  lock_vm = lock_vm;
  main_vm = main_vm;
  regs = names;
  lib_id = λ lib. lib;
  lib_id_eq = ◌==◌;
  opid = opid plain encoders;
}

-- A repository that has every library, and one that answers with another.
abbrev pub honest : LibRepo outside
honest = record { get_lib = λ id. some id }

abbrev pub cheating : LibRepo outside
cheating = record { get_lib = λ id. some 77 }

abbrev pub codex : Codex outside
codex = record {
  version = tt;
  name = [];
  developer = [];
  timestamp = 0;
  field_order = 101;
  input_config = 1;
  verification_config = 2;
  verifiers = (3, 30) ∷ [];
}

abbrev pub contract : ContractId
contract = record { bytes = 9 ∷ 9 ∷ [] }

abbrev pub address : ℕ → CellAddr
address n = record { opid = record { bytes = 1 ∷ [] }; pos = n }

-- The cell at position 0 is locked by the script 40.
abbrev pub cell : StateCell outside
cell = record { «data» = StateValue.single 5; auth = record { fe = 6 }; lock = some 40 }

abbrev pub memory : Memory outside
memory = record {
  destructible = λ addr. if addr.pos == 0 then some cell else none;
  immutable = λ addr. if addr.pos == 1 then some (StateValue.single 8) else none;
}

abbrev pub input : ℕ → Input ℕ
input key = record { addr = address 0; witness = StateValue.single key }

abbrev pub operation : ℕ → ℕ → Operation outside
operation call_id key = record {
  version = tt;
  contract_id = contract;
  call_id = call_id;
  nonce = 0;
  destructible_in = input key ∷ [];
  immutable_in = address 1 ∷ [];
  destructible_out = cell ∷ [];
  immutable_out = [];
}

abbrev pub genesis : Genesis outside
genesis = record {
  version = tt;
  codex_id = record { bytes = 4 ∷ [] };
  call_id = 0;
  nonce = 7;
  blank1 = tt;
  blank2 = tt;
  destructible_out = cell ∷ [];
  immutable_out = [];
}
