-- ===== src/Stl/Generator/Makes.antt =====
-- Programs whose calls are known: which calls they make, one after the other, when all go well, and what
-- they have done when one does not (src/bin/ultrasonic-stl.rs).
use mathlib.Core.Path.{subst}
use mathlib.Core.List.{append_assoc, append-nil}
use ultrasonic.Prelude.{
  ◌≡◌, ◌≢◌, refl, sym, ap, ap₂, ◌∙◌, Bool, true, List, [], ◌∷◌, ◌++◌, some, Partial, ◌⊎◌, done,
  panicked, inl, inr,
}
use ultrasonic.Stl.Generator.{Run, and_then, ◌>>=◌, unwrap, lift}

module _ {E : Type 0} (accepts : List E → E → Bool) where
  -- Each of the calls is accepted after those before it.
  abbrev pub Accepted : List E → List E → Type 0
  Accepted calls [] = Unit
  Accepted calls (e ∷ rest) = (accepts calls e ≡ true) × Accepted (calls ++ e ∷ []) rest

  Accepted-append :
      (calls first later : List E)
      → Accepted calls first
      → Accepted (calls ++ first) later
      → Accepted calls (first ++ later)
  Accepted-append calls [] later h k = subst (λ l. Accepted l later) (append-nil calls) k
  Accepted-append calls (e ∷ first) later h k = (
    h.0,
    Accepted-append (calls ++ e ∷ []) first later h.1
        (subst (λ l. Accepted l later) (sym (append_assoc calls (e ∷ []) first)) k),
  )

  append-Accepted :
      (calls first later : List E)
      → Accepted calls (first ++ later)
      → Accepted calls first × Accepted (calls ++ first) later
  append-Accepted calls [] later h = (tt, subst (λ l. Accepted l later) (sym (append-nil calls)) h)
  append-Accepted calls (e ∷ first) later h =
      let (before, after) = append-Accepted (calls ++ e ∷ []) first later h.1 in
      ((h.0, before), subst (λ l. Accepted l later) (append_assoc calls (e ∷ []) first) after)

  -- What a run was stopped at: some of the calls were made, and not all.
  abbrev pub StoppedIn : List E → List E → List E → Type 0
  StoppedIn calls events after =
      (before : List E) × (rest : List E) × (rest ≢ [])
      × (events ≡ before ++ rest)
      × (after ≡ calls ++ before)
      × Accepted calls before

  -- After any calls the program makes just these, when they are accepted, and ends with the value; when
  -- it panics, it has made those in front of one that was not.
  pub record Makes {A : Type 0} (m : Run E A) (events : List E) (value : A) : Type 0 where
    pub ended :
        (calls after : List E) (a : A)
        → m calls ≡ (done a, after)
        → (a ≡ value) × (after ≡ calls ++ events) × Accepted calls events
    pub runs : (calls : List E) → Accepted calls events → m calls ≡ (done value, calls ++ events)
    pub stopped :
        (calls after : List E) → m calls ≡ (panicked, after) → StoppedIn calls events after

  -- A step that makes no call.
  pub unwrap-Makes : {A : Type 0} (value : A) → Makes (unwrap (some value)) [] value
  unfolding unwrap
  unwrap-Makes value = record {
    ended = λ calls after a h. (cc, ap (λ r. r.1) (sym h) ∙ sym (append-nil calls), tt);
    runs = λ calls h. ap (λ l. (done value, l)) (sym (append-nil calls));
    stopped = λ calls after h. cc;
  }

pub lift-done :
    {E A : Type 0} (r : Partial A) (calls : List E) {after : List E} {a : A}
    → lift r calls ≡ (done a, after)
    → r ≡ done a
unfolding lift
lift-done r calls h = ap (λ p. p.0) h

pub lift-Makes :
    {E A : Type 0} (accepts : List E → E → Bool) (r : Partial A) {a : A}
    → r ≡ done a
    → Makes accepts (lift r) [] a
unfolding lift unwrap
lift-Makes accepts r {a} e =
    subst (λ p. Makes accepts (lift p) [] a) (sym e) (unwrap-Makes accepts a)

longer : {E : Type 0} (rest later : List E) → rest ≢ [] → (rest ++ later) ≢ []
longer [] later full e = full refl
longer (x ∷ rest) later full e = cc

module _ {E A B : Type 0} (f : A → Run E B) where
  and_then-ended :
      (r : Partial A × List E) {b : B} {after : List E}
      → and_then f r ≡ (done b, after)
      → (a : A) × (mid : List E) × (r ≡ (done a, mid)) × (f a mid ≡ (done b, after))
  unfolding and_then
  and_then-ended (done a, mid) h = (a, mid, refl, h)
  and_then-ended (panicked, mid) h = cc

  and_then-stopped :
      (r : Partial A × List E) {after : List E}
      → and_then f r ≡ (panicked, after)
      → (r ≡ (panicked, after))
        ⊎ ((a : A) × (mid : List E) × (r ≡ (done a, mid)) × (f a mid ≡ (panicked, after)))
  unfolding and_then
  and_then-stopped (done a, mid) h = inr (a, mid, refl, h)
  and_then-stopped (panicked, mid) h = inl (ap (λ l. (panicked, l)) (ap (λ r. r.1) h))

module _ {E A B : Type 0} (m : Run E A) (f : A → Run E B) where
  -- What the end of two steps says of each of them.
  pub >>=-ended :
      {calls after : List E} {b : B}
      → (m >>= f) calls ≡ (done b, after)
      → (a : A) × (mid : List E) × (m calls ≡ (done a, mid)) × (f a mid ≡ (done b, after))
  unfolding ◌>>=◌
  >>=-ended {calls} h = and_then-ended f (m calls) h

  >>=-runs : (calls mid : List E) (a : A) → m calls ≡ (done a, mid) → (m >>= f) calls ≡ f a mid
  unfolding ◌>>=◌ and_then
  >>=-runs calls mid a h = ap (and_then f) h

  >>=-stopped :
      (calls after : List E)
      → (m >>= f) calls ≡ (panicked, after)
      → (m calls ≡ (panicked, after))
        ⊎ ((a : A) × (mid : List E) × (m calls ≡ (done a, mid)) × (f a mid ≡ (panicked, after)))
  unfolding ◌>>=◌
  >>=-stopped calls after h = and_then-stopped f (m calls) h

module _ {E : Type 0} (accepts : List E → E → Bool) {A B : Type 0} (m : Run E A) (f : A → Run E B)
    {first later : List E} {a : A} {b : B} (made : Makes accepts m first a)
    (then_made : Makes accepts (f a) later b) where
  -- One program after another makes the calls of the one and then those of the other.
  pub >>=-Makes : Makes accepts (m >>= f) (first ++ later) b
  >>=-Makes = record { ended = ended; runs = runs; stopped = stopped }
    where
      ended :
          (calls after : List E) (c : B)
          → (m >>= f) calls ≡ (done c, after)
          → (c ≡ b) × (after ≡ calls ++ (first ++ later)) × Accepted accepts calls (first ++ later)
      ended calls after c h =
          let (x, mid, h₁, h₂) = >>=-ended m f h in
          let (same, at_mid, accepted) = made.ended calls mid x h₁ in
          let (same', at_end, accepted') =
            then_made.ended (calls ++ first) after c (ap₂ f (sym same) (sym at_mid) ∙ h₂) in
          (
            same',
            at_end ∙ append_assoc calls first later,
            Accepted-append accepts calls first later accepted accepted',
          )

      runs :
          (calls : List E)
          → Accepted accepts calls (first ++ later)
          → (m >>= f) calls ≡ (done b, calls ++ (first ++ later))
      runs calls h =
          let (before, after) = append-Accepted accepts calls first later h in
          >>=-runs m f calls (calls ++ first) a (made.runs calls before)
          ∙ then_made.runs (calls ++ first) after
          ∙ ap (λ l. (done b, l)) (append_assoc calls first later)

      stopped :
          (calls after : List E)
          → (m >>= f) calls ≡ (panicked, after)
          → StoppedIn accepts calls (first ++ later) after
      stopped calls after h = elim (>>=-stopped m f calls after h) [
        | inl broke ↦
            let (before, rest, full, e, at_end, accepted) = made.stopped calls after broke in
            (
              before,
              rest ++ later,
              longer rest later full,
              ap (λ l. l ++ later) e ∙ append_assoc before rest later,
              at_end,
              accepted,
            )
        | inr (x, mid, h₁, h₂) ↦
            let (same, at_mid, accepted) = made.ended calls mid x h₁ in
            let (before, rest, full, e, at_end, accepted') =
              then_made.stopped (calls ++ first) after (ap₂ f (sym same) (sym at_mid) ∙ h₂) in
            (
              first ++ before,
              rest,
              full,
              ap (λ l. first ++ l) e ∙ sym (append_assoc first before rest),
              at_end ∙ append_assoc calls first before,
              Accepted-append accepts calls first before accepted accepted',
            )
      ]
