-- ===== src/Identity.antt =====
-- `Identity` of src/util.rs, over the confined printable strings of strict_encoding, which are a
-- parameter. Text is a list of code points.
use ultrasonic.Prelude.{
  ℕ, ◌≤◌, ◌≡◌, ◌↔◌, refl, sym, ◌∙◌, Bool, true, List, [], ◌∷◌, length, All, arith, Partial, done,
  panicked,
}

-- `RString<AsciiPrintable, AsciiPrintable, 1, 4096>`, its `From<&'static str>` and its `PartialEq`.
pub record StringApi : Type 1 where
  pub RString : Type 0
  pub from_str : List ℕ → Partial RString
  pub eq : RString → RString → Bool

-- What is documented of it: printable texts of 1 to 4096 characters are taken, and all is compared by
-- text.
pub record StringLaws (api : StringApi) : Type 0 where
  pub text : api.RString → List ℕ
  pub from_str_lem :
      (s : List ℕ)
      → 1 ≤ length s
      → length s ≤ 4096
      → All (λ c. (32 ≤ c) × (c ≤ 126)) s
      → (r : api.RString) × (api.from_str s ≡ done r) × (text r ≡ s)
  pub eq_iff : (a b : api.RString) → (api.eq a b ≡ true) ↔ (text a ≡ text b)

pub record Identity (api : StringApi) : Type 0 where
  pub string : api.RString

-- The text `ssi:anonymous`
abbrev pub anonymous : List ℕ
anonymous =
    b's' ∷ b's' ∷ b'i' ∷ b':' ∷ b'a' ∷ b'n' ∷ b'o' ∷ b'n' ∷ b'y' ∷ b'm' ∷ b'o' ∷ b'u' ∷ b's' ∷ []

module _ (api : StringApi) where
  wrapped : Partial api.RString → Partial (Identity api)
  wrapped panicked = panicked
  wrapped (done string) = done (record { string = string })

  -- `From<&'static str>` and `Default`
  unfoldable pub identity_from : List ℕ → Partial (Identity api)
  unfolding wrapped
  identity_from s = wrapped (api.from_str s)

  unfoldable pub default : Partial (Identity api)
  unfolding identity_from
  default = identity_from anonymous

  -- The derived `PartialEq`, with a value that may panic on its right.
  compared : Identity api → Partial (Identity api) → Partial Bool
  compared a panicked = panicked
  compared a (done b) = done (api.eq a.string b.string)

  unfoldable pub is_anonymous : Identity api → Partial Bool
  unfolding compared default
  is_anonymous identity = compared identity default

  unfoldable pub is_empty : Identity api → Partial Bool
  unfolding is_anonymous
  is_empty identity = is_anonymous identity

  -- Both tests return, and they hold just of the identity whose text is the anonymous one.
  pub is_empty_exact :
      (laws : StringLaws api) (identity : Identity api)
      → (b : Bool) × (is_anonymous identity ≡ done b)
        × (is_empty identity ≡ done b)
        × ((b ≡ true) ↔ (laws.text identity.string ≡ anonymous))
  unfolding is_anonymous is_empty
  is_empty_exact laws identity =
      let (r, made, same) = laws.from_str_lem anonymous (omega arith) (omega arith) (omega arith) in
      let (to, from) = laws.eq_iff identity.string r in
      (
        api.eq identity.string r,
        rw made refl,
        rw made refl,
        ((λ h. to h ∙ same), (λ e. from (e ∙ sym same))),
      )
