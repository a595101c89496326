-- ===== src/Order.antt =====
-- The strict total order that std::map and std::set ask of their keys (operator< of
-- ddspipe's Guid, InstanceHandle and DdsTopic, and of std::string), as an interface.
pub mod Texts
use fast_dds_spy.Prelude.{Bool, true, false, ◌≡◌, ◌↔◌, arith}

pub record Order {ℓ} (K : Type ℓ) : Type ℓ where
  pub eq : K → K → Bool
  pub eq_iff : (a b : K) → (eq a b ≡ true) ↔ (a ≡ b)
  pub lt : K → K → Bool
  pub lt_irrefl : (a : K) → lt a a ≡ false
  pub lt_trans : (a b c : K) → lt a b ≡ true → lt b c ≡ true → lt a c ≡ true
  pub lt_total : (a b : K) → eq a b ≡ false → lt a b ≡ false → lt b a ≡ true

-- Equality of keys, as a test.
infix 50 ◌=?◌
abbrev pub ◌=?◌ {ℓ} : {K : Type ℓ} ⦃o : Order K⦄ → K → K → Bool
◌=?◌ ⦃o⦄ = o.eq

infix 50 ◌<?◌
abbrev pub ◌<?◌ {ℓ} : {K : Type ℓ} ⦃o : Order K⦄ → K → K → Bool
◌<?◌ ⦃o⦄ = o.lt

pub lt_of_not_lt {ℓ} :
    {K : Type ℓ} ⦃o : Order K⦄ (j k : K) → (j =? k) ≡ false → (k <? j) ≡ false → (j <? k) ≡ true
lt_of_not_lt ⦃o⦄ j k h l = o.lt_total k j (ground (arith, o.eq_iff j k, o.eq_iff k j)) l
