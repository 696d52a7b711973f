-- ===== src/Codex/Stand/Script.antt =====
-- The lock script of the test stand (`lib_lock` of src/codex.rs), instruction by instruction. The
-- instructions are those of zk-aluvm, and what each does is taken from its documentation.
use ultrasonic.Prelude.{
  ℕ, ◌+◌, ◌<◌, true, ◌≡◌, ◌≢◌, Option, none, some, List, [], ◌∷◌, Partial, done,
}
use ultrasonic.Externals.{Externals, Status, ok, fail}
use ultrasonic.Isa.Context.{VmContext}
use ultrasonic.Codex.{Runtime}
use ultrasonic.Codex.Spec.{ResetLaws}
use ultrasonic.Codex.Stand.{Bench}

-- What the script finds wrong, by the number that it reports: the token is not the secret, what is given
-- first is not, or something is given besides.
pub data Faulty {Fe : Type 0} (key : Fe) (token first : Option Fe) (More : Type 0)
    : ℕ → Type 0 where
  no_token : token ≢ some key → Faulty key token first More 1
  no_witness : token ≡ some key → first ≢ some key → Faulty key token first More 2
  too_much : token ≡ some key → first ≡ some key → More → Faulty key token first More 3

-- `not` on `CO`.
abbrev pub flip : Status → Status
flip ok = fail
flip fail = ok

module _ {E : Externals} (runtime : Runtime E) (bench : Bench E) where
  open runtime use {lock_vm, main_vm, regs, lib_id}
  open regs use {ea, e1, e2, e3, e4, e5, e8}
  open bench use {lib_site, core_config, asm}
  open asm use {Instr, stop, chk, not_co, put, eq, test, assemble}

  abbrev pub Resolves : (E.LibId → Partial (Option E.Lib)) → List Instr → Type 0
  Resolves resolve code = resolve (lib_id (assemble code)) ≡ done (some (assemble code))

  -- A run of code at its instructions: the complexity of each, the outcome of the code from a machine
  -- that has spent some, `CO`, `CK`, and what a machine has spent.
  pub record CodeApi : Type 0 where
    pub cost : Instr → ℕ
    pub run : ℕ → List Instr → lock_vm.Vm → Partial (Status × lock_vm.Vm)
    pub co : lock_vm.Vm → Status
    pub set_co : lock_vm.Vm → Status → lock_vm.Vm
    pub ck : lock_vm.Vm → Status
    pub spent : lock_vm.Vm → ℕ

  module _ (resets : ResetLaws lock_vm) (code : CodeApi) where
    open code use {cost, run, co, set_co, ck, spent}

    -- The complexity of code that is run to its end.
    abbrev pub total : List Instr → ℕ
    total [] = 0
    total (instr ∷ rest) = cost instr + total rest

    -- A machine that is to halt on a failed check, has failed none so far, and has that limit.
    abbrev pub Halts : ℕ → lock_vm.Vm → Type 0
    Halts lim vm = (resets.config_of vm ≡ core_config true (some lim)) × (ck vm ≡ ok)

    -- What zk-aluvm documents of a machine that is to halt on a failed check, while what it spends stays
    -- below its limit: `put` sets a register, `eq` and `test` set `CO`, `not` turns it, `chk` fails on
    -- it, and the end of the code is a success if no check failed. `stop` is one byte and ends with
    -- success, and a run may start at any instruction that there is. A new machine has failed no check
    -- and spent nothing.
    pub record CodeLaws : Type 0 where
      pub co-set_co : (vm : lock_vm.Vm) (s : Status) → co (set_co vm s) ≡ s
      pub get-set_co :
          (vm : lock_vm.Vm) (s : Status) (r : E.RegE)
          → lock_vm.get (set_co vm s) r ≡ lock_vm.get vm r
      pub co-set : (vm : lock_vm.Vm) (r : E.RegE) (v : E.Fe) → co (lock_vm.set vm r v) ≡ co vm
      pub ck-with_config : (c : E.CoreConfig) (n : ℕ) → ck (lock_vm.with_config c n) ≡ ok
      pub ck-set : (vm : lock_vm.Vm) (r : E.RegE) (v : E.Fe) → ck (lock_vm.set vm r v) ≡ ck vm
      pub ck-set_co : (vm : lock_vm.Vm) (s : Status) → ck (set_co vm s) ≡ ck vm
      pub config_of-set_co :
          (vm : lock_vm.Vm) (s : Status) → resets.config_of (set_co vm s) ≡ resets.config_of vm
      pub spent-with_config : (c : E.CoreConfig) (n : ℕ) → spent (lock_vm.with_config c n) ≡ 0
      pub spent-set :
          (vm : lock_vm.Vm) (r : E.RegE) (v : E.Fe) → spent (lock_vm.set vm r v) ≡ spent vm
      pub run-end :
          (lim n : ℕ) (vm : lock_vm.Vm)
          → Halts lim vm
          → (after : lock_vm.Vm) × (run n [] vm ≡ done (ok, after))
      pub run-put :
          (lim n : ℕ) (vm : lock_vm.Vm) (r : E.RegE) (v : E.Fe) (rest : List Instr)
          → Halts lim vm
          → n + cost (put r v) < lim
          → run n (put r v ∷ rest) vm ≡ run (n + cost (put r v)) rest (lock_vm.set vm r v)
      pub run-eq_same :
          (lim n : ℕ) (vm : lock_vm.Vm) (a b : E.RegE) (v : E.Fe) (rest : List Instr)
          → Halts lim vm
          → n + cost (eq a b) < lim
          → lock_vm.get vm a ≡ some v
          → lock_vm.get vm b ≡ some v
          → run n (eq a b ∷ rest) vm ≡ run (n + cost (eq a b)) rest (set_co vm ok)
      pub run-eq_other :
          (lim n : ℕ) (vm : lock_vm.Vm) (a b : E.RegE) (rest : List Instr)
          → Halts lim vm
          → n + cost (eq a b) < lim
          → lock_vm.get vm a ≢ lock_vm.get vm b
          → run n (eq a b ∷ rest) vm ≡ run (n + cost (eq a b)) rest (set_co vm fail)
      pub run-test_none :
          (lim n : ℕ) (vm : lock_vm.Vm) (r : E.RegE) (rest : List Instr)
          → Halts lim vm
          → n + cost (test r) < lim
          → lock_vm.get vm r ≡ none
          → run n (test r ∷ rest) vm ≡ run (n + cost (test r)) rest (set_co vm fail)
      pub run-test_some :
          (lim n : ℕ) (vm : lock_vm.Vm) (r : E.RegE) (v : E.Fe) (rest : List Instr)
          → Halts lim vm
          → n + cost (test r) < lim
          → lock_vm.get vm r ≡ some v
          → run n (test r ∷ rest) vm ≡ run (n + cost (test r)) rest (set_co vm ok)
      pub run-not :
          (lim n : ℕ) (vm : lock_vm.Vm) (rest : List Instr)
          → Halts lim vm
          → n + cost not_co < lim
          → run n (not_co ∷ rest) vm ≡ run (n + cost not_co) rest (set_co vm (flip (co vm)))
      pub run-chk_ok :
          (lim n : ℕ) (vm : lock_vm.Vm) (rest : List Instr)
          → Halts lim vm
          → n + cost chk < lim
          → co vm ≡ ok
          → run n (chk ∷ rest) vm ≡ run (n + cost chk) rest vm
      pub run-chk_fail :
          (lim n : ℕ) (vm : lock_vm.Vm) (rest : List Instr)
          → Halts lim vm
          → n + cost chk < lim
          → co vm ≡ fail
          → (after : lock_vm.Vm) × (run n (chk ∷ rest) vm ≡ done (fail, after))
            × ((r : E.RegE) → lock_vm.get after r ≡ lock_vm.get vm r)
      pub exec-second :
          (vm : lock_vm.Vm) (resolve : E.LibId → Partial (Option E.Lib)) (second : Instr)
          (rest : List Instr)
          → Resolves resolve (stop ∷ second ∷ rest)
          → lock_vm.exec vm (lib_site (lib_id (assemble (stop ∷ second ∷ rest))) 1) tt resolve
            ≡ run (spent vm) (second ∷ rest) vm
      pub exec-stop :
          (lim order : ℕ) (context : VmContext E) (resolve : E.LibId → Partial (Option E.Lib))
          (rest : List Instr)
          → cost stop < lim
          → Resolves resolve (stop ∷ rest)
          → (after : main_vm.Vm) × (main_vm.exec
                (main_vm.with_config (core_config true (some lim)) order)
                (lib_site (lib_id (assemble (stop ∷ rest))) 0)
                context
                resolve
              ≡ done (ok, after))
