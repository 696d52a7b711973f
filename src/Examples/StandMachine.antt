-- ===== src/Examples/StandMachine.antt =====
-- A small machine that runs the scripts of the test stand of src/codex.rs. Its libraries are the code
-- that was assembled, and their own ids.
use ultrasonic.Prelude.{
  ℕ, zero, suc, true, false, List, [], ◌∷◌, ◌++◌, Bool, Option, none, some, ◌==◌, ◌+◌, leb,
  if◌then◌else◌, Partial, done, panicked, bytes_eq,
}
use ultrasonic.Externals.{Externals, Status, ok, fail}
use ultrasonic.State.Value.{StateValue}
use ultrasonic.Codex.{VmApi, Runtime}
use ultrasonic.Codex.Stand.{Bench, Assembler}
use ultrasonic.Codex.Stand.Script.{flip}
use ultrasonic.Examples.Machine.{names, RegisterFile, write, empty}

pub data Instr : Type 0 where
  stop chk not_co : Instr
  clr test : ℕ → Instr
  put eq : ℕ → ℕ → Instr

abbrev numbers : Instr → List ℕ
numbers stop = 0 ∷ 0 ∷ 0 ∷ []
numbers chk = 1 ∷ 0 ∷ 0 ∷ []
numbers not_co = 2 ∷ 0 ∷ 0 ∷ []
numbers (clr r) = 3 ∷ r ∷ 0 ∷ []
numbers (test r) = 4 ∷ r ∷ 0 ∷ []
numbers (put r v) = 5 ∷ r ∷ v ∷ []
numbers (eq a b) = 6 ∷ a ∷ b ∷ []

abbrev pub Code : Type 0
Code = List Instr

abbrev all_numbers : Code → List ℕ
all_numbers [] = []
all_numbers (instr ∷ rest) = numbers instr ++ all_numbers rest

abbrev pub code_eq : Code → Code → Bool
code_eq a b = bytes_eq (all_numbers a) (all_numbers b)

-- `halt` and `complexity_lim`.
abbrev pub Config : Type 0
Config = Bool × Option ℕ

abbrev pub world : Externals
world = record {
  Fe = ℕ;
  LibId = Code;
  LibSite = Code × ℕ;
  Lib = Code;
  CoreConfig = Config;
  ReservedBytes = λ n. Unit {0};
  RegE = ℕ;
}

pub record CodeVm : Type 0 where
  pub config : Config
  pub order : ℕ
  pub file : RegisterFile
  pub co : Status
  pub ck : Status
  pub spent : ℕ

abbrev pub make : Config → ℕ → CodeVm
make config order = record {
  config = config;
  order = order;
  file = empty;
  co = ok;
  ck = ok;
  spent = 0;
}

abbrev pub set : CodeVm → ℕ → ℕ → CodeVm
set vm r v = record vm { file = write vm.file r (some v) }

abbrev pub set_co : CodeVm → Status → CodeVm
set_co vm s = record vm { co = s }

abbrev pub status_of : Bool → Status
status_of true = ok
status_of false = fail

abbrev pub present : Option ℕ → Status
present none = fail
present (some v) = ok

abbrev pub same : Option ℕ → Option ℕ → Bool
same none none = true
same (some a) (some b) = a == b
same _ _ = false

-- Each instruction costs 1, and a machine that has spent its limit fails.
abbrev pub over : Config → ℕ → Bool
over (halt, none) n = false
over (halt, some lim) n = leb lim n

abbrev pub charged : CodeVm → ℕ → Status × CodeVm → Status × CodeVm
charged vm n later =
    if over vm.config (n + 1) then (fail, record vm { ck = fail; spent = n + 1 }) else later

-- `chk` notes a failure in `CK`, and ends the run only where the machine is to halt.
abbrev pub checked_vm : Status → ℕ → CodeVm → CodeVm
checked_vm ok n vm = vm
checked_vm fail n vm = record vm { ck = fail; spent = n }

abbrev pub checked_by : Bool → Status → CodeVm → Status × CodeVm → Status × CodeVm
checked_by true fail vm later = (fail, vm)
checked_by _ _ vm later = later

abbrev pub run : ℕ → Code → CodeVm → Status × CodeVm
run n [] vm = (vm.ck, record vm { spent = n })
run n (stop ∷ rest) vm = charged vm n (vm.ck, record vm { spent = n + 1 })
run n (chk ∷ rest) vm =
    let after = checked_vm vm.co (n + 1) vm in
    charged vm n (checked_by vm.config.0 vm.co after (run (n + 1) rest after))
run n (not_co ∷ rest) vm = charged vm n (run (n + 1) rest (set_co vm (flip vm.co)))
run n (clr r ∷ rest) vm =
    charged vm n (run (n + 1) rest (record vm { file = write vm.file r none }))
run n (test r ∷ rest) vm = charged vm n (run (n + 1) rest (set_co vm (present (vm.file r))))
run n (put r v ∷ rest) vm = charged vm n (run (n + 1) rest (set vm r v))
run n (eq a b ∷ rest) vm =
    charged vm n (run (n + 1) rest (set_co vm (status_of (same (vm.file a) (vm.file b)))))

-- A run starts at an instruction that there is, here the first or one after a `stop`.
abbrev pub run_from : ℕ → Code → CodeVm → Status × CodeVm
run_from zero (instr ∷ rest) vm = run vm.spent (instr ∷ rest) vm
run_from (suc zero) (stop ∷ instr ∷ rest) vm = run vm.spent (instr ∷ rest) vm
run_from _ _ vm = (fail, vm)

abbrev pub started : CodeVm → ℕ → Partial (Option Code) → Partial (Status × CodeVm)
started vm pos panicked = panicked
started vm pos (done none) = done (fail, vm)
started vm pos (done (some code)) = done (run_from pos code vm)

abbrev pub machine : {Context : Type 0} → VmApi world Context
machine = record {
  Vm = CodeVm;
  with_config = make;
  set = set;
  get = λ vm r. vm.file r;
  exec = λ vm site context resolve. started vm site.1 (resolve site.0);
  reset = λ vm. make vm.config vm.order;
}

abbrev pub runtime : Runtime world
runtime = record {
  lock_vm = machine;
  main_vm = machine;
  regs = names;
  lib_id = λ lib. lib;
  lib_id_eq = code_eq;
  opid = λ operation. record { bytes = 7 ∷ [] };
}

abbrev assembler : Assembler world
assembler = record {
  Instr = Instr;
  stop = stop;
  chk = chk;
  not_co = not_co;
  clr = clr;
  put = put;
  eq = eq;
  test = test;
  assemble = λ code. code;
}

abbrev pub bench : Bench world
bench = record {
  dumb_codex = record {
    version = tt;
    name = [];
    developer = [];
    timestamp = 0;
    field_order = 0;
    input_config = (false, none);
    verification_config = (false, none);
    verifiers = [];
  };
  dumb_operation = record {
    version = tt;
    contract_id = record { bytes = [] };
    call_id = 0;
    nonce = 0;
    destructible_in = [];
    immutable_in = [];
    destructible_out = [];
    immutable_out = [];
  };
  dumb_addr = record { opid = record { bytes = 0 ∷ [] }; pos = 0 };
  dumb_cell = record { «data» = StateValue.none; auth = record { fe = 0 }; lock = none };
  dumb_value = StateValue.none;
  dumb_token = record { fe = 0 };
  digest_test = 9 ∷ 1 ∷ [];
  digest_wrong = 8 ∷ 2 ∷ [];
  core_config = λ halt complexity_lim. (halt, complexity_lim);
  field_order_secp = 101;
  lib_site = λ id pos. (id, pos);
  fe256 = λ n. n;
  asm = assembler;
}
