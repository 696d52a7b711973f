-- ===== src/Examples/StandLaws.antt =====
-- The small machine of the test stand of src/codex.rs does what zk-aluvm documents of its own.
use mathlib.Core.Path.{subst}
use ultrasonic.Prelude.{
  ℕ, ◌+◌, ◌<◌, ◌∙◌, Bool, leb, if◌then◌else◌, zero, suc, ◌≡◌, ◌≢◌, refl, ap, true, false, [], ◌∷◌,
  Option, none, some, ◌==◌, ==_iff, ==_refl, Partial, done, panicked, bytes_eq_refl, arith,
  Bool-cases, inl, inr,
}
use ultrasonic.Externals.{Status, ok, fail}
use ultrasonic.Codex.Spec.{ResetLaws}
use ultrasonic.Codex.Armed.{RegisterLaws, AllDiffer}
use ultrasonic.Codex.Stand.Script.{CodeApi, CodeLaws}
use ultrasonic.Examples.Machine.{names}
use ultrasonic.Examples.StandMachine.{
  stop, chk, not_co, clr, put, eq, test, Code, CodeVm, Config, make, over, charged, checked_vm,
  status_of, present, set_co, same, checked_by, run, run_from, started, runtime, bench,
}

abbrev Kept : CodeVm → Status × CodeVm → Type 0
Kept vm (status, vm') = (vm'.config ≡ vm.config) × (vm'.order ≡ vm.order)

charged-Kept :
    (vm : CodeVm) (n : ℕ) (later : Status × CodeVm) → Kept vm later → Kept vm (charged vm n later)
charged-Kept vm n later kept =
    elim (over vm.config (n + 1))
      as (λ b. Kept vm (if b then (fail, record vm { ck = fail; spent = n + 1 }) else later)) [
        | true ↦ (refl, refl)
        | false ↦ kept
      ]

checked_vm-Kept :
    (s : Status) (n : ℕ) (vm : CodeVm)
    → ((checked_vm s n vm).config ≡ vm.config) × ((checked_vm s n vm).order ≡ vm.order)
checked_vm-Kept ok n vm = (refl, refl)
checked_vm-Kept fail n vm = (refl, refl)

checked_by-Kept :
    (halt : Bool) (s : Status) (vm after : CodeVm) (later : Status × CodeVm)
    → (after.config ≡ vm.config) × (after.order ≡ vm.order)
    → Kept after later
    → Kept vm (checked_by halt s after later)
checked_by-Kept true fail vm after later same kept = same
checked_by-Kept true ok vm after later same kept = (kept.0 ∙ same.0, kept.1 ∙ same.1)
checked_by-Kept false _ vm after later same kept = (kept.0 ∙ same.0, kept.1 ∙ same.1)

run-Kept : (n : ℕ) (code : Code) (vm : CodeVm) → Kept vm (run n code vm)
run-Kept n [] vm = (refl, refl)
run-Kept n (stop ∷ rest) vm = charged-Kept vm n _ (refl, refl)
run-Kept n (chk ∷ rest) vm = charged-Kept vm n _ (
    checked_by-Kept vm.config.0 vm.co vm (checked_vm vm.co (n + 1) vm) _
      (checked_vm-Kept vm.co (n + 1) vm) (run-Kept (n + 1) rest _))
run-Kept n (not_co ∷ rest) vm = charged-Kept vm n _ (run-Kept (n + 1) rest _)
run-Kept n (clr r ∷ rest) vm = charged-Kept vm n _ (run-Kept (n + 1) rest _)
run-Kept n (test r ∷ rest) vm = charged-Kept vm n _ (run-Kept (n + 1) rest _)
run-Kept n (put r v ∷ rest) vm = charged-Kept vm n _ (run-Kept (n + 1) rest _)
run-Kept n (eq a b ∷ rest) vm = charged-Kept vm n _ (run-Kept (n + 1) rest _)

run_from-Kept : (pos : ℕ) (code : Code) (vm : CodeVm) → Kept vm (run_from pos code vm)
run_from-Kept zero [] vm = (refl, refl)
run_from-Kept zero (instr ∷ rest) vm = run-Kept vm.spent (instr ∷ rest) vm
run_from-Kept (suc zero) (stop ∷ instr ∷ rest) vm = run-Kept vm.spent (instr ∷ rest) vm
run_from-Kept _ _ vm = (refl, refl)

started-Kept :
    (vm : CodeVm) (pos : ℕ) (r : Partial (Option Code)) {status : Status} {vm' : CodeVm}
    → started vm pos r ≡ done (status, vm')
    → Kept vm (status, vm')
started-Kept vm pos panicked h = absurd (cc)
started-Kept vm pos (done none) {status} {vm'} h =
    let met : (fail, vm) ≡ (status, vm') = cc in subst (Kept vm) met (refl, refl)
started-Kept vm pos (done (some code)) {status} {vm'} h =
    let met : run_from pos code vm ≡ (status, vm') = cc in
    subst (Kept vm) met (run_from-Kept pos code vm)

pub machine-ResetLaws : ResetLaws runtime.lock_vm
machine-ResetLaws = record {
  config_of = λ vm. vm.config;
  order_of = λ vm. vm.order;
  config_of-with_config = λ c n. refl;
  order_of-with_config = λ c n. refl;
  config_of-set = λ vm r v. refl;
  order_of-set = λ vm r v. refl;
  exec-keeps = λ vm site context resolve status vm' h. started-Kept vm site.1 (resolve site.0) h;
  reset_lem = λ vm. refl;
}

pub machine-RegisterLaws : RegisterLaws runtime.lock_vm
machine-RegisterLaws = record {
  get-with_config = λ c n r. refl;
  get-set_self = λ vm r v. rw (==_refl r) refl;
  get-set_ne = λ vm r s v h. elim (Bool-cases (r == s)) [
    | inl met ↦ absurd (h ((==_iff r s).0 met))
    | inr different ↦ rw different refl
  ];
}

same-other : (a b : Option ℕ) → a ≢ b → same a b ≡ false
same-other none none h = absurd (h refl)
same-other none (some b) h = refl
same-other (some a) none h = refl
same-other (some a) (some b) h = elim (Bool-cases (a == b)) [
  | inl met ↦ absurd (h (ap some ((==_iff a b).0 met)))
  | inr different ↦ different
]

same-equal : (a b : Option ℕ) (v : ℕ) → a ≡ some v → b ≡ some v → same a b ≡ true
same-equal a b v left right = rw (left, right) (==_refl v)

abbrev asked : ℕ → Code → CodeVm → Partial (Status × CodeVm)
asked n code vm = done (run n code vm)

abbrev pub machine_code : CodeApi runtime bench
machine_code = record {
  cost = λ instr. 1;
  run = asked;
  co = λ vm. vm.co;
  set_co = set_co;
  ck = λ vm. vm.ck;
  spent = λ vm. vm.spent;
}

module _ (lim n : ℕ) (vm : CodeVm) (halts : (vm.config ≡ (true, some lim)) × (vm.ck ≡ ok))
    (enough : n + 1 < lim) where
  -- Below the limit the next instruction is run.
  within : over vm.config (n + 1) ≡ false
  within = ap (λ c. over c (n + 1)) halts.0 ∙ under
    where
      under : leb lim (n + 1) ≡ false
      under = ground arith

  goes_on : (later : Status × CodeVm) → done (charged vm n later) ≡ done later
  goes_on later =
      ap (λ b. done (if b then (fail, record vm { ck = fail; spent = n + 1 }) else later)) within

  passes_check : (rest : Code) → vm.co ≡ ok → asked n (chk ∷ rest) vm ≡ asked (n + 1) rest vm
  passes_check rest good =
      goes_on _
      ∙ ap
          (λ s. done (
            checked_by vm.config.0 s (checked_vm s (n + 1) vm)
              (run (n + 1) rest (checked_vm s (n + 1) vm))))
          good
      ∙ ap (λ (c : Config). done (checked_by c.0 ok vm (run (n + 1) rest vm))) halts.0

  fails_check :
      (rest : Code)
      → vm.co ≡ fail
      → asked n (chk ∷ rest) vm ≡ done (fail, record vm { ck = fail; spent = n + 1 })
  fails_check rest bad =
      goes_on _
      ∙ ap
          (λ s. done (
            checked_by vm.config.0 s (checked_vm s (n + 1) vm)
              (run (n + 1) rest (checked_vm s (n + 1) vm))))
          bad
      ∙ ap
          (λ (c : Config). done (
            checked_by c.0 fail (checked_vm fail (n + 1) vm)
              (run (n + 1) rest (checked_vm fail (n + 1) vm))))
          halts.0

pub machine-CodeLaws : CodeLaws runtime bench machine-ResetLaws machine_code
unfolding machine-ResetLaws
machine-CodeLaws = record {
  co-set_co = λ vm s. refl;
  get-set_co = λ vm s r. refl;
  co-set = λ vm r v. refl;
  ck-with_config = λ c n. refl;
  ck-set = λ vm r v. refl;
  ck-set_co = λ vm s. refl;
  config_of-set_co = λ vm s. refl;
  spent-with_config = λ c n. refl;
  spent-set = λ vm r v. refl;
  run-end = λ lim n vm halts.
      (record vm { spent = n }, ap (λ s. done (s, record vm { spent = n })) halts.1);
  run-put = λ lim n vm r v rest halts enough. goes_on lim n vm halts enough _;
  run-eq_same = λ lim n vm a b v rest halts enough left right.
      goes_on lim n vm halts enough _
      ∙ ap (λ b. asked (n + 1) rest (set_co vm (status_of b))) (same-equal _ _ v left right);
  run-eq_other = λ lim n vm a b rest halts enough other.
      goes_on lim n vm halts enough _
      ∙ ap (λ b. asked (n + 1) rest (set_co vm (status_of b))) (same-other _ _ other);
  run-test_none = λ lim n vm r rest halts enough absent.
      goes_on lim n vm halts enough _ ∙ ap (λ o. asked (n + 1) rest (set_co vm (present o))) absent;
  run-test_some = λ lim n vm r v rest halts enough there.
      goes_on lim n vm halts enough _ ∙ ap (λ o. asked (n + 1) rest (set_co vm (present o))) there;
  run-not = λ lim n vm rest halts enough. goes_on lim n vm halts enough _;
  run-chk_ok = λ lim n vm rest halts enough good. passes_check lim n vm halts enough rest good;
  run-chk_fail = λ lim n vm rest halts enough bad. (
    record vm { ck = fail; spent = n + 1 },
    fails_check lim n vm halts enough rest bad,
    λ r. refl,
  );
  exec-second = λ vm resolve second code found. ap (started vm 1) found;
  exec-stop = λ lim order context resolve code enough found.
      let new : CodeVm = make (true, some lim) order in
      (
        record new { spent = 1 },
        ap (started new 0) found
            ∙ goes_on lim 0 new (refl, refl) enough (ok, record new { spent = 1 }),
      );
}

pub lib-same : (code : Code) → runtime.lib_id_eq code code ≡ true
lib-same code = bytes_eq_refl _

pub names-free :
    AllDiffer (names.ea ∷ names.e8 ∷ names.e1 ∷ names.e2 ∷ names.e3 ∷ names.e4 ∷ names.e5 ∷ [])
names-free = (
  (
    (λ e. omega arith),
    (
      (λ e. omega arith),
      ((λ e. omega arith), ((λ e. omega arith), ((λ e. omega arith), ((λ e. omega arith), tt)))),
    ),
  ),
  (
    (
      (λ e. omega arith),
      ((λ e. omega arith), ((λ e. omega arith), ((λ e. omega arith), ((λ e. omega arith), tt)))),
    ),
    (
      ((λ e. omega arith), ((λ e. omega arith), ((λ e. omega arith), ((λ e. omega arith), tt)))),
      (
        ((λ e. omega arith), ((λ e. omega arith), ((λ e. omega arith), tt))),
        (((λ e. omega arith), ((λ e. omega arith), tt)), (((λ e. omega arith), tt), (tt, tt))),
      ),
    ),
  ),
)
