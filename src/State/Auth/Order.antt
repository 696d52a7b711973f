-- ===== src/State/Auth/Order.antt =====
-- `Ord for AuthToken` of src/state.rs, which exists for maps keyed by tokens.
use ultrasonic.Prelude.{◌≡◌, ap, IsTotalOrder, IsTotalOrder-on, compare-IsTotalOrder}
use ultrasonic.Externals.{FieldApi, FieldLaws}
use ultrasonic.State.Auth.{AuthToken, cmp}

module _ {Fe : Type 0} {api : FieldApi Fe} (laws : FieldLaws api) where
  -- The comparison of tokens is a total order in which only a token and itself tie. A field element is
  -- determined by its value.
  pub cmp-IsTotalOrder : IsTotalOrder {K = AuthToken Fe} ◌≡◌ (cmp api)
  unfolding cmp
  cmp-IsTotalOrder =
      IsTotalOrder-on (λ (a : AuthToken Fe). api.to_u256 a.fe) compare-IsTotalOrder
        (λ a b. (
          λ e i. record { fe = laws.to_u256-injective a.fe b.fe e i },
          ap (λ (a : AuthToken Fe). api.to_u256 a.fe),
        ))
